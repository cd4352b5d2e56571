-- ===== src/Permission.antt =====
-- permission.rs: who may call what.
use gringotts.Base.{some, none, ⊤, str_eq}
use gringotts.Error.{Result, ok, err, unauthorized, guard}
use gringotts.Cosmos.{Addr, Env, MessageInfo}
use gringotts.Storage.{may_load}
use gringotts.Storage.Keys.{string_key}
use gringotts.State.{Store}

unfoldable pub authorize_op : Store → Addr → Result ⊤
authorize_op store caller = elim (may_load caller store.ops) [
  | some _ ↦ ok tt
  | none ↦ err unauthorized
]

unfoldable pub authorize_admin : Store → Addr → Result ⊤
authorize_admin store caller = elim (may_load caller store.admins) [
  | some _ ↦ ok tt
  | none ↦ err unauthorized
]

unfoldable pub authorize_self_call : Env → MessageInfo → Result ⊤
authorize_self_call env info = guard (str_eq env.address info.sender) unauthorized
