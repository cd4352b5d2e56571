-- ===== src/Roles/Listed.antt =====
-- The lists of the members: in ascending order, each once.
use mathlib.Core.Path.{subst}
use gringotts.Base.{◌≡◌, ◌∙◌, refl, sym, ap, Bool, true, false, List, [], ◌∷◌, All, length, arith}
use gringotts.Error.{ok}
use gringotts.Cosmos.{Addr, Env, MessageInfo, Response}
use gringotts.Host.{Host}
use gringotts.Msg.{EmptyStruct, empty_struct, InstantiateMsg, AdminListResponse, OpListResponse}
use gringotts.Storage.{Map, keys, may_load}
use gringotts.Storage.Keys.{string_key, str_lt}
use gringotts.Storage.Order.{string_key-IsOrdered}
use gringotts.Storage.Ascending.{IsAscending, insert-IsAscending, remove-IsAscending}
use gringotts.State.{Store, get_number_of_admins, get_number_of_ops}
use gringotts.Chain.{Call, deliver, deliver_either, run, run_induction}
use gringotts.Contract.Execute.{execute}
use gringotts.Contract.Instantiate.{instantiate, save_initial, save_all}
use gringotts.Contract.Query.{query_admins, query_ops}
use gringotts.Setup.Members.{contains, is_stored}
use gringotts.Setup.Reordered.{save_all-IsAscending}
use gringotts.Roles.Frame.{Roles, roles}
use gringotts.Roles.Change.{
  toggled, Change, idle, operator, admin, unlock_address, reward_address, execute-Change,
}

-- Each address is before all that follow.
abbrev pub IsSorted : List Addr → Type 0
IsSorted [] = Unit
IsSorted (a ∷ rest) = All (λ b. str_lt a b ≡ true) rest × IsSorted rest

All-keys : (P : Addr → Type 0) (m : Map Addr EmptyStruct) → All (λ e. P e.0) m → All P (keys m)
All-keys P [] all = tt
All-keys P (e ∷ m) (p, all) = (p, All-keys P m all)

keys-IsSorted : (m : Map Addr EmptyStruct) → IsAscending m → IsSorted (keys m)
keys-IsSorted [] ascending = tt
keys-IsSorted ((a, x) ∷ m) (above, ascending) =
    (All-keys (λ b. str_lt a b ≡ true) m above, keys-IsSorted m ascending)

contains-keys : (a : Addr) (m : Map Addr EmptyStruct) → contains a (keys m) ≡ is_stored a m
unfolding may_load
contains-keys a [] = refl
contains-keys a ((b, x) ∷ m) = ground (arith, contains-keys a m)

toggled-IsAscending :
    (leaves : Bool) (a : Addr) (m : Map Addr EmptyStruct)
    → IsAscending m
    → IsAscending (toggled leaves a m)
toggled-IsAscending true a m ascending = remove-IsAscending a m ascending
toggled-IsAscending false a m ascending =
    insert-IsAscending string_key-IsOrdered a empty_struct m ascending

-- Both maps are in the order of their keys.
abbrev Listed : Roles → Type 0
Listed r = IsAscending r.by_vote.admins × IsAscending r.ops

Change-Listed :
    (env : Env) (info : MessageInfo) (s : Store) (r : Roles)
    → Change env info s r
    → Listed (roles s)
    → Listed r
Change-Listed env info s r (idle e) v = subst Listed (sym e) v
Change-Listed env info s r (operator leaves op is_admin e) (v, w) =
    subst Listed (sym e) (v, toggled-IsAscending leaves op s.ops w)
Change-Listed env info s r (admin leaves a self e) (v, w) =
    subst Listed (sym e) (toggled-IsAscending leaves a s.admins v, w)
Change-Listed env info s r (unlock_address a self e) v = subst Listed (sym e) v
Change-Listed env info s r (reward_address a self e) v = subst Listed (sym e) v

module _ (h : Host) where
  deliver-Listed : (c : Call) (s : Store) → Listed (roles s) → Listed (roles (deliver h c s))
  deliver-Listed c s v =
      let t = (execute h c.querier c.env c.info c.msg s).1 in
      deliver_either h (λ t. Listed (roles t)) c s v
        (Change-Listed c.env c.info s (roles t) (execute-Change c.env c.info s h c.querier c.msg) v)

  instantiate_members :
      (env : Env) (info : MessageInfo) (msg : InstantiateMsg) (storage : Store) {r : Response}
      → let s = (instantiate h env info msg storage).1 in
        (instantiate h env info msg storage).0 ≡ ok r
        → (s.admins ≡ save_all msg.admins storage.admins) × (s.ops ≡ save_all msg.ops storage.ops)
  unfolding instantiate save_initial
  instantiate_members env info msg storage e = (ground arith, ground arith)

  instantiate-Listed :
      (env : Env) (info : MessageInfo) (msg : InstantiateMsg) (storage : Store) {r : Response}
      → (instantiate h env info msg storage).0 ≡ ok r
      → storage.admins ≡ []
      → storage.ops ≡ []
      → Listed (roles (instantiate h env info msg storage).1)
  instantiate-Listed env info msg storage e no_admins no_ops =
      let saved = instantiate_members env info msg storage e in
      let listed : (xs : List Addr) → IsAscending (save_all xs []) =
        λ xs. save_all-IsAscending xs [] tt in
      (
        subst IsAscending (sym (saved.0 ∙ ap (save_all msg.admins) no_admins)) (listed msg.admins),
        subst IsAscending (sym (saved.1 ∙ ap (save_all msg.ops) no_ops)) (listed msg.ops),
      )

  -- From a successful instantiation in a storage without admins and operators, after any calls,
  -- `query_admins` lists the admins in ascending order, which leaves no repetition, an address is listed
  -- exactly when it is stored, and the number of admins is the length of the list; and so does
  -- `query_ops` with the operators.
  pub query_members-IsSorted :
      (env : Env) (info : MessageInfo) (msg : InstantiateMsg) (storage : Store) {r : Response}
      → (instantiate h env info msg storage).0 ≡ ok r
      → storage.admins ≡ []
      → storage.ops ≡ []
      → (calls : List Call) (a : Addr)
      → let s = run h calls (instantiate h env info msg storage).1 in
        ((shown : AdminListResponse) × (query_admins s ≡ ok shown)
          × IsSorted shown.admins
          × (contains a shown.admins ≡ is_stored a s.admins)
          × (get_number_of_admins s ≡ length shown.admins))
        × ((shown : OpListResponse) × (query_ops s ≡ ok shown)
            × IsSorted shown.ops
            × (contains a shown.ops ≡ is_stored a s.ops)
            × (get_number_of_ops s ≡ length shown.ops))
  unfolding query_admins query_ops get_number_of_admins get_number_of_ops
  query_members-IsSorted env info msg storage e no_admins no_ops calls a =
      let start = (instantiate h env info msg storage).1 in
      let s = run h calls start in
      let (v, w) =
        run_induction h (λ s. Listed (roles s)) deliver-Listed calls start
          (instantiate-Listed env info msg storage e no_admins no_ops) in
      (
        (_, refl, keys-IsSorted s.admins v, contains-keys a s.admins, refl),
        (_, refl, keys-IsSorted s.ops w, contains-keys a s.ops, refl),
      )
