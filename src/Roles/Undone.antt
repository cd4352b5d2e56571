-- ===== src/Roles/Undone.antt =====
-- A change of the operators, undone.
use gringotts.Base.{◌≡◌, true, false, none, some, arith}
use gringotts.Error.{ok}
use gringotts.Cosmos.{Addr, MessageInfo, new_response}
use gringotts.Msg.{EmptyStruct, empty_struct}
use gringotts.Permission.{authorize_admin}
use gringotts.Storage.{may_load}
use gringotts.Storage.Keys.{string_key}
use gringotts.Storage.Ascending.{remove-insert}
use gringotts.State.{Store}
use gringotts.Contract.Propose.{execute_update_op}

-- An admin who adds an operator that is not yet one, and then removes it, succeeds both times and leaves
-- the store as it was.
pub update_op-update_op :
    (info : MessageInfo) (s : Store) (op : Addr) {x : EmptyStruct}
    → may_load info.sender s.admins ≡ some x
    → may_load op s.ops ≡ none
    → let (added, s') = execute_update_op info op false s in
      (added ≡ ok new_response) × (execute_update_op info op true s' ≡ (ok new_response, s))
unfolding execute_update_op authorize_admin
update_op-update_op info s op is_admin absent =
    (ground arith, ground (arith, remove-insert op empty_struct s.ops absent))
