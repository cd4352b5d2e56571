-- ===== src/Contract/Internal.antt =====
-- The handlers that only the contract itself may call, by the messages of its proposals.
use gringotts.Base.{Bool, if◌then◌else◌, [], some}
use gringotts.Word.{add128, sum128}
use gringotts.Exec.{Exec, pure, reads, save, ◌>>=◌, ◌>>◌}
use gringotts.Cosmos.{
  Addr, Env, MessageInfo, Response, new_response, bank, send, coins, add_message,
}
use gringotts.Permission.{authorize_self_call}
use gringotts.Storage.{insert, remove}
use gringotts.Storage.Keys.{string_key}
use gringotts.Msg.{empty_struct}
use gringotts.State.{Store, load, update}

unfoldable pub execute_internal_update_admin : Env → MessageInfo → Addr → Bool → Exec Store Response
execute_internal_update_admin env info admin remove_admin = do
  reads (λ s. authorize_self_call env info)
  save (λ s.
      if remove_admin
      then record s { admins = remove admin s.admins }
      else record s { admins = insert admin empty_struct s.admins })
  pure new_response

unfoldable pub execute_internal_update_unlocked_distribution_address :
    Env → MessageInfo → Addr → Exec Store Response
execute_internal_update_unlocked_distribution_address env info addr = do
  reads (λ s. authorize_self_call env info)
  save (λ s. record s { unlock_distribution_address = some addr })
  pure new_response

unfoldable pub execute_internal_update_staking_reward_distribution_address :
    Env → MessageInfo → Addr → Exec Store Response
execute_internal_update_staking_reward_distribution_address env info addr = do
  reads (λ s. authorize_self_call env info)
  save (λ s. record s { staking_reward_address = some addr })
  pure new_response

unfoldable pub execute_internal_withdraw_locked : Env → MessageInfo → Addr → Exec Store Response
execute_internal_withdraw_locked env info dst = do
  reads (λ s. authorize_self_call env info)
  vesting_amounts ← reads (load (λ s. s.vesting_amounts))
  let amount = sum128 vesting_amounts
  save (λ s. record s { vesting_amounts = some [] })
  save (λ s. record s { vesting_timestamps = some [] })
  update (λ s. s.withdrawn_locked) (λ new s. record s { withdrawn_locked = some new })
      (λ old. add128 old amount)
  denom ← reads (load (λ s. s.denom))
  pure (add_message new_response (bank (send dst (coins amount denom))))
