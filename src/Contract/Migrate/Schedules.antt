-- ===== src/Contract/Migrate/Schedules.antt =====
-- The timestamps that `migrate_105_handler` writes, in nanoseconds.
use gringotts.Base.{List, [], ◌∷◌}
use gringotts.Cosmos.{Timestamp}

unfoldable pub first_schedule : List Timestamp
first_schedule =
    1726358400000000000 ∷ 1728950400000000000 ∷ 1731628800000000000 ∷ 1734220800000000000
    ∷ 1736899200000000000 ∷ 1739577600000000000 ∷ 1741996800000000000 ∷ 1744675200000000000
    ∷ 1747267200000000000 ∷ 1749945600000000000 ∷ 1752537600000000000 ∷ 1755216000000000000
    ∷ 1757894400000000000 ∷ 1760486400000000000 ∷ 1763164800000000000 ∷ 1765756800000000000
    ∷ 1768435200000000000 ∷ 1771113600000000000 ∷ 1773532800000000000 ∷ 1776211200000000000
    ∷ 1778803200000000000 ∷ 1781481600000000000 ∷ 1784073600000000000 ∷ 1786752000000000000
    ∷ 1789430400000000000 ∷ 1792022400000000000 ∷ 1794700800000000000 ∷ 1797292800000000000
    ∷ 1799971200000000000 ∷ 1802649600000000000 ∷ 1805068800000000000 ∷ 1807747200000000000
    ∷ 1810339200000000000 ∷ 1813017600000000000 ∷ 1815609600000000000 ∷ 1818288000000000000 ∷ []

unfoldable pub second_schedule : List Timestamp
second_schedule =
    1726358400000000000 ∷ 1728950400000000000 ∷ 1731628800000000000 ∷ 1734220800000000000
    ∷ 1736899200000000000 ∷ 1739577600000000000 ∷ 1741996800000000000 ∷ 1744675200000000000
    ∷ 1747267200000000000 ∷ 1749945600000000000 ∷ 1752537600000000000 ∷ 1755216000000000000
    ∷ 1757894400000000000 ∷ 1760486400000000000 ∷ 1763164800000000000 ∷ 1765756800000000000
    ∷ 1768435200000000000 ∷ 1771113600000000000 ∷ 1773532800000000000 ∷ 1776211200000000000
    ∷ 1778803200000000000 ∷ 1781481600000000000 ∷ 1784073600000000000 ∷ 1786752000000000000
    ∷ 1789430400000000000 ∷ 1792022400000000000 ∷ 1794700800000000000 ∷ 1797292800000000000
    ∷ 1799971200000000000 ∷ 1802649600000000000 ∷ 1805068800000000000 ∷ 1807747200000000000
    ∷ 1810339200000000000 ∷ 1813017600000000000 ∷ 1815609600000000000 ∷ 1818288000000000000
    ∷ 1820966400000000000 ∷ 1823558400000000000 ∷ 1826236800000000000 ∷ 1828828800000000000
    ∷ 1831507200000000000 ∷ 1834185600000000000 ∷ 1836691200000000000 ∷ 1839369600000000000
    ∷ 1841961600000000000 ∷ 1844640000000000000 ∷ 1847232000000000000 ∷ 1849910400000000000
    ∷ 1852588800000000000 ∷ 1855180800000000000 ∷ 1857859200000000000 ∷ 1860451200000000000
    ∷ 1863129600000000000 ∷ 1865808000000000000 ∷ 1868227200000000000 ∷ 1870905600000000000
    ∷ 1873497600000000000 ∷ 1876176000000000000 ∷ 1878768000000000000 ∷ 1881446400000000000 ∷ []
