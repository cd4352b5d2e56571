-- ===== src/Contract/Ops.antt =====
-- The handlers that only make messages, or change the operators: delegation and `UpdateOp`.
use gringotts.Base.{ℕ, String}
use gringotts.Error.{Result, ok, ◌>>=◌, ◌>>◌}
use gringotts.Cosmos.{MessageInfo, Response, new_response}
use gringotts.Permission.{authorize_op}
use gringotts.Staking.{delegate, redelegate, undelegate}
use gringotts.State.{Store, load}

unfoldable pub execute_delegate : Store → MessageInfo → String → ℕ → Result Response
unfolding authorize_op delegate
execute_delegate s info validator amount = do
  authorize_op s info.sender
  denom ← load (λ t. t.denom) s
  ok (delegate new_response validator amount denom)

unfoldable pub execute_redelegate : Store → MessageInfo → String → String → ℕ → Result Response
unfolding authorize_op redelegate
execute_redelegate s info src_validator dst_validator amount = do
  authorize_op s info.sender
  denom ← load (λ t. t.denom) s
  ok (redelegate new_response src_validator dst_validator amount denom)

unfoldable pub execute_undelegate : Store → MessageInfo → String → ℕ → Result Response
unfolding authorize_op undelegate
execute_undelegate s info validator amount = do
  authorize_op s info.sender
  denom ← load (λ t. t.denom) s
  ok (undelegate new_response validator amount denom)
