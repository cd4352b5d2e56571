-- ===== src/Setup.antt =====
-- Instantiation and the changes of the members: what they accept, and what the queries show then.
pub mod Members
pub mod Reordered
use gringotts.Base.{
  ℕ, ◌≤◌, ◌<◌, ◌≡◌, ◌≢◌, ◌↔◌, refl, Bool, ◌||◌, String, List, [], ◌∷◌, none, some, arith, Option,
  sum,
}
use gringotts.Word.{u64_mod, u128_mod}
use gringotts.Error.{ok, IsOk}
use gringotts.Cosmos.{Addr, Env, MessageInfo, Response, absolute_percentage}
use gringotts.Host.{Host, IsLawful}
use gringotts.Msg.{InstantiateMsg}
use gringotts.Storage.{Map, may_load}
use gringotts.Storage.Keys.{string_key}
use gringotts.State.{Store}
use gringotts.Tranche.Spec.{IsValid, deposited}
use gringotts.Tranche.Validate.{validate-IsValid}
use gringotts.Contract.Instantiate.{save_all, save_initial, instantiate}
use gringotts.Contract.Query.{query_info, query_config}
use gringotts.Setup.Members.{contains, is_stored, is_stored-save_all_nil}

module _ (h : Host) (env : Env) (info : MessageInfo) (msg : InstantiateMsg) (storage : Store) where
  -- With a lawful host, where the sum of the amounts and that of the deposit are u128s, and the block time
  -- a u64: an instantiation succeeds exactly when there are admins and operators, the percentage is at
  -- most 100, and the tranche is valid by the description without loops.
  pub instantiate-IsOk :
      IsLawful h
      → env.block.time < u64_mod
      → sum msg.tranche.vesting_amounts < u128_mod
      → deposited msg.tranche.denom info.funds < u128_mod
      → IsOk (instantiate h env info msg storage).0 ↔ (
          (msg.admins ≢ [])
          × (msg.ops ≢ [])
          × (msg.admin_voting_threshold_percentage ≤ 100)
          × IsValid msg.tranche env.block.time info.funds)
  unfolding instantiate
  instantiate-IsOk law now amounts deposit =
      let valid = validate-IsValid h law env now msg.tranche info.funds amounts deposit in
      ground (arith, valid)

  -- After a successful instantiation in a storage without admins and operators, `query_info` shows the
  -- tranche with nothing withdrawn, `query_config` shows the voting period and the threshold, and an
  -- address is stored as admin or as operator exactly when the message lists it so.
  pub query-instantiate :
      {r : Response}
      → (instantiate h env info msg storage).0 ≡ ok r
      → storage.admins ≡ []
      → storage.ops ≡ []
      → (a : Addr)
      → let s = (instantiate h env info msg storage).1 in
        (query_info s
          ≡ ok (record {
            denom = msg.tranche.denom;
            vesting_timestamps = msg.tranche.vesting_timestamps;
            vesting_amounts = msg.tranche.vesting_amounts;
            unlock_distribution_address = msg.tranche.unlocked_token_distribution_address;
            staking_reward_address = msg.tranche.staking_reward_distribution_address;
            withdrawn_staking_rewards = 0;
            withdrawn_unlocked = 0;
            withdrawn_locked = 0;
          }))
        × (query_config s
            ≡ ok (record {
              max_voting_period = msg.max_voting_period;
              admin_voting_threshold =
                  absolute_percentage (h.percent msg.admin_voting_threshold_percentage);
            }))
        × (is_stored a s.admins ≡ contains a msg.admins)
        × (is_stored a s.ops ≡ contains a msg.ops)
  unfolding instantiate save_initial query_info query_config
  query-instantiate e no_admins no_ops a =
      let admins = is_stored-save_all_nil a msg.admins storage.admins no_admins in
      let ops = is_stored-save_all_nil a msg.ops storage.ops no_ops in ground (arith, admins, ops)
