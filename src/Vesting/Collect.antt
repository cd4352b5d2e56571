-- ===== src/Vesting/Collect.antt =====
-- `collect_vested` of vesting.rs: it takes an amount off the front of the schedule.
use gringotts.Base.{
  ℕ, zero, suc, ◌==◌, ltb, leb, if◌then◌else◌, List, [], ◌∷◌, length, drop, some, ⊤,
}
use gringotts.Word.{add128, sub128}
use gringotts.Error.{Result, ok, panic, no_sufficient_unlocked_tokens}
use gringotts.Exec.{Exec, pure, raise, lift, reads, save, ◌>>=◌, ◌>>◌}
use gringotts.Cosmos.{Timestamp}
use gringotts.State.{Store, load}

-- The loop of `collect_vested` at round `i`, on what is left of the two lists: `vested_amount`,
-- `amount_to_subtract` and `remaining_first_idx` when it ends.
unfoldable pub collect_from : Timestamp → ℕ → ℕ → List Timestamp → List ℕ → ℕ → ℕ → ℕ → ℕ × ℕ × ℕ
collect_from now requested i (ts ∷ rest) (amount ∷ amounts) vested to_subtract first =
    let next =
      collect_from now requested (suc i) rest amounts (add128 vested amount) to_subtract (suc i) in
    let vested' = add128 vested amount in
    if ltb now ts
    then (vested, to_subtract, first)
    else if leb requested vested'
    then (if vested' == requested
        then (requested, 0, suc first)
        else (requested, sub128 (add128 amount requested) vested', first))
    else next
collect_from now requested i _ _ vested to_subtract first = (vested, to_subtract, first)

-- `xs[first..].to_vec()`
abbrev pub slice_from : {A : Type 0} → ℕ → List A → Result (List A)
slice_from first xs = if leb first (length xs) then ok (drop first xs) else panic

-- `if n > 0 { xs[0] -= n; }`
unfoldable pub subtract_first : ℕ → List ℕ → Result (List ℕ)
subtract_first zero xs = ok xs
subtract_first (suc n) [] = panic
subtract_first (suc n) (x ∷ xs) = ok (sub128 x (suc n) ∷ xs)

abbrev pub save_amounts : List ℕ → Exec Store ⊤
save_amounts amounts = save (λ s. record s { vesting_amounts = some amounts })

abbrev pub save_timestamps : List Timestamp → Exec Store ⊤
save_timestamps ts = save (λ s. record s { vesting_timestamps = some ts })

-- `collect_vested` after its loop.
unfoldable pub save_remaining : ℕ → List Timestamp → List ℕ → ℕ × ℕ × ℕ → Exec Store ℕ
unfolding subtract_first
save_remaining requested vesting_ts vesting_amounts (vested, to_subtract, first) =
    if ltb vested requested
    then raise no_sufficient_unlocked_tokens
    else if leb (length vesting_amounts) first
    then (do save_amounts []; save_timestamps []; pure vested)
    else (do
      tail_amounts ← lift (slice_from first vesting_amounts)
      remaining_amounts ← lift (subtract_first to_subtract tail_amounts)
      save_amounts remaining_amounts
      remaining_ts ← lift (slice_from first vesting_ts)
      save_timestamps remaining_ts
      pure vested)

unfoldable pub collect_vested : Timestamp → ℕ → Exec Store ℕ
unfolding collect_from save_remaining
collect_vested now requested = do
  vesting_ts ← reads (load (λ s. s.vesting_timestamps))
  vesting_amounts ← reads (load (λ s. s.vesting_amounts))
  save_remaining requested vesting_ts vesting_amounts
      (collect_from now requested 0 vesting_ts vesting_amounts 0 0 0)
