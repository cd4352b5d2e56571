-- ===== src/Contract/Instantiate.antt =====
-- `instantiate`: the checks of the message, and the first storage.
use gringotts.Base.{is_empty, not, ltb, String, List, [], ◌∷◌, some, ⊤}
use gringotts.Word.{sum128}
use gringotts.Error.{threshold, invalid_threshold, no_admins, no_ops}
use gringotts.Exec.{Exec, pure, lift, save, check, ◌>>◌}
use gringotts.Cosmos.{Addr, Env, MessageInfo, Response, new_response, absolute_percentage}
use gringotts.Host.{Host}
use gringotts.Storage.{Map, insert}
use gringotts.Storage.Keys.{string_key}
use gringotts.Msg.{EmptyStruct, empty_struct, InstantiateMsg}
use gringotts.State.{Store}
use gringotts.Tranche.{validate}

abbrev pub contract_name : String
contract_name = "crates.io:sei-gringotts"

-- `env!("CARGO_PKG_VERSION")`, the version of Cargo.toml.
abbrev pub contract_version : String
contract_version = "0.1.9"

-- The loops that save the admins and the operators.
unfoldable pub save_all : List Addr → Map Addr EmptyStruct → Map Addr EmptyStruct
save_all [] m = m
save_all (addr ∷ rest) m = save_all rest (insert addr empty_struct m)

module _ (h : Host) where
  -- The writes of `instantiate`, in their order.
  unfoldable pub save_initial : InstantiateMsg → Exec Store ⊤
  unfolding save_all
  save_initial msg = do
    save (λ s. record s {
      contract_info = some (record { contract = contract_name; version = contract_version });
    })
    save (λ s. record s { admins = save_all msg.admins s.admins })
    save (λ s. record s { ops = save_all msg.ops s.ops })
    save (λ s. record s { denom = some msg.tranche.denom })
    save (λ s. record s { vesting_timestamps = some msg.tranche.vesting_timestamps })
    save (λ s. record s { vesting_amounts = some msg.tranche.vesting_amounts })
    let total = sum128 msg.tranche.vesting_amounts
    save (λ s. record s { total_amount = some total })
    save (λ s. record s {
      unlock_distribution_address = some msg.tranche.unlocked_token_distribution_address;
    })
    save (λ s. record s {
      staking_reward_address = some msg.tranche.staking_reward_distribution_address;
    })
    save (λ s. record s { max_voting_period = some msg.max_voting_period })
    save (λ s. record s {
      admin_voting_threshold =
          some (absolute_percentage (h.percent msg.admin_voting_threshold_percentage));
    })
    save (λ s. record s { withdrawn_staking_rewards = some 0 })
    save (λ s. record s { withdrawn_unlocked = some 0 })
    save (λ s. record s { withdrawn_locked = some 0 })

  unfoldable pub instantiate : Env → MessageInfo → InstantiateMsg → Exec Store Response
  unfolding save_initial
  instantiate env info msg = do
    check (not (is_empty msg.admins)) no_admins
    check (not (is_empty msg.ops)) no_ops
    check (not (ltb 100 msg.admin_voting_threshold_percentage)) (threshold invalid_threshold)
    lift (validate h msg.tranche env info.funds)
    save_initial msg
    pure new_response
