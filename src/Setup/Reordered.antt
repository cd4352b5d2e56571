-- ===== src/Setup/Reordered.antt =====
-- The order of the members in the message of the instantiation, and their repetitions, do not matter.
use gringotts.Base.{◌≡◌, ◌∙◌, refl, sym, ap, is_empty, none, some, Option, List, [], ◌∷◌, arith}
use gringotts.Cosmos.{Addr, Env, MessageInfo}
use gringotts.Host.{Host}
use gringotts.Msg.{EmptyStruct, empty_struct, InstantiateMsg}
use gringotts.Storage.{Map, insert, beq_refl}
use gringotts.Storage.Keys.{string_key}
use gringotts.Storage.Order.{string_key-IsOrdered}
use gringotts.Storage.Ascending.{IsAscending, insert-IsAscending, IsAscending-equal}
use gringotts.State.{Store}
use gringotts.Contract.Instantiate.{save_all, save_initial, instantiate}
use gringotts.Setup.Members.{contains, is_some, is_stored-save_all_nil}

pub save_all-IsAscending :
    (xs : List Addr) (m : Map Addr EmptyStruct) → IsAscending m → IsAscending (save_all xs m)
unfolding save_all
save_all-IsAscending [] m ascending = ascending
save_all-IsAscending (a ∷ xs) m ascending =
    save_all-IsAscending xs (insert a empty_struct m)
      (insert-IsAscending string_key-IsOrdered a empty_struct m ascending)

-- There is one value to store.
is_some-equal : (x y : Option EmptyStruct) → is_some x ≡ is_some y → x ≡ y
is_some-equal none none e = refl
is_some-equal none (some empty_struct) e = absurd (cc)
is_some-equal (some empty_struct) none e = absurd (cc)
is_some-equal (some empty_struct) (some empty_struct) e = refl

module _ (xs ys : List Addr) (same : (a : Addr) → contains a xs ≡ contains a ys) where
  save_all-same : save_all xs [] ≡ save_all ys []
  save_all-same =
      IsAscending-equal string_key-IsOrdered (save_all xs []) (save_all ys [])
        (save_all-IsAscending xs [] tt) (save_all-IsAscending ys [] tt)
        λ a.
          is_some-equal _ _ (
            is_stored-save_all_nil a xs [] refl
            ∙ same a
            ∙ sym (is_stored-save_all_nil a ys [] refl))

is_empty-same :
    (xs ys : List Addr) → ((a : Addr) → contains a xs ≡ contains a ys) → is_empty xs ≡ is_empty ys
is_empty-same [] [] same = refl
is_empty-same [] (b ∷ ys) same = absurd (ground (arith, same b, beq_refl b))
is_empty-same (a ∷ xs) [] same = absurd (ground (arith, same a, beq_refl a))
is_empty-same (a ∷ xs) (b ∷ ys) same = refl

-- In a storage without admins and operators, two messages that list the same admins and the same
-- operators, in whatever order and however often, and are alike otherwise, have the same outcome: the
-- same success or error, and the same storage.
pub instantiate-reordered :
    (h : Host) (env : Env) (info : MessageInfo) (msg : InstantiateMsg) (storage : Store)
    (admins ops : List Addr)
    → storage.admins ≡ []
    → storage.ops ≡ []
    → ((a : Addr) → contains a admins ≡ contains a msg.admins)
    → ((a : Addr) → contains a ops ≡ contains a msg.ops)
    → instantiate h env info (record msg { admins = admins; ops = ops }) storage
      ≡ instantiate h env info msg storage
unfolding instantiate save_initial
instantiate-reordered h env info msg storage admins ops no_admins no_ops same_admins same_ops =
    let admins_saved : save_all admins storage.admins ≡ save_all msg.admins storage.admins =
      ap (save_all admins) no_admins
      ∙ save_all-same admins msg.admins same_admins
      ∙ sym (ap (save_all msg.admins) no_admins) in
    let ops_saved : save_all ops storage.ops ≡ save_all msg.ops storage.ops =
      ap (save_all ops) no_ops
      ∙ save_all-same ops msg.ops same_ops
      ∙ sym (ap (save_all msg.ops) no_ops) in
    let no_admin = is_empty-same admins msg.admins same_admins in
    let no_op = is_empty-same ops msg.ops same_ops in ground arith
