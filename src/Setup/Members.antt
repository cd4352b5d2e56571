-- ===== src/Setup/Members.antt =====
-- The maps of admins and of operators as sets of addresses.
use gringotts.Base.{
  ◌≡◌, refl, Bool, true, false, ◌||◌, str_eq, none, some, Option, List, [], ◌∷◌, arith,
}
use gringotts.Cosmos.{Addr}
use gringotts.Msg.{EmptyStruct, empty_struct}
use gringotts.Storage.{Map, may_load, insert, may_load-insert}
use gringotts.Storage.Keys.{string_key}
use gringotts.Contract.Instantiate.{save_all}

abbrev pub contains : Addr → List Addr → Bool
contains a [] = false
contains a (b ∷ rest) = str_eq b a || contains a rest

abbrev pub is_some : Option EmptyStruct → Bool
is_some none = false
is_some (some _) = true

abbrev pub is_stored : Addr → Map Addr EmptyStruct → Bool
is_stored a m = is_some (may_load a m)

-- What is saved for a list of addresses is what was there, and those addresses.
pub is_stored-save_all :
    (a : Addr) (xs : List Addr) (m : Map Addr EmptyStruct)
    → is_stored a (save_all xs m) ≡ (contains a xs || is_stored a m)
unfolding save_all
is_stored-save_all a [] m = refl
is_stored-save_all a (b ∷ xs) m =
    ground
      (arith, is_stored-save_all a xs (insert b empty_struct m), may_load-insert b a empty_struct m)

pub is_stored-save_all_nil :
    (a : Addr) (xs : List Addr) (m : Map Addr EmptyStruct)
    → m ≡ []
    → is_stored a (save_all xs m) ≡ contains a xs
unfolding may_load
is_stored-save_all_nil a xs m e = rw e (ground (arith, is_stored-save_all a xs []))
