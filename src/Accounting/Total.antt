-- ===== src/Accounting/Total.antt =====
-- No message writes the denomination and the total that was locked.
use gringotts.Base.{ℕ, ◌≡◌, ◌∙◌, refl, ap, List, arith, Option, String}
use gringotts.Cosmos.{Addr, Env, MessageInfo}
use gringotts.Host.{Host, Querier}
use gringotts.Msg.{ExecuteMsg}
use gringotts.State.{Store}
use gringotts.Vesting.{save_remaining, collect_vested}
use gringotts.Contract.Withdraw.{execute_initiate_withdraw_unlocked}
use gringotts.Contract.Execute.{execute}
use gringotts.Accounting.Execute.{execute-Keeps}
use gringotts.Contract.Internal.{execute_internal_withdraw_locked}

-- What was locked.
abbrev pub fixed : Store → Option String × Option ℕ
fixed s = (s.denom, s.total_amount)

save_remaining-total :
    (r : ℕ) (ts xs : List ℕ) (loop : ℕ × ℕ × ℕ) (s : Store)
    → fixed (save_remaining r ts xs loop s).1 ≡ fixed s
unfolding save_remaining
save_remaining-total r ts xs loop s = ground arith

collect_vested-total : (now r : ℕ) (s : Store) → fixed (collect_vested now r s).1 ≡ fixed s
unfolding collect_vested
collect_vested-total now r s = ground arith

withdraw_unlocked-total :
    (env : Env) (info : MessageInfo) (r : ℕ) (s : Store)
    → fixed (execute_initiate_withdraw_unlocked env info r s).1 ≡ fixed s
unfolding execute_initiate_withdraw_unlocked
withdraw_unlocked-total env info r s = ground (arith, collect_vested-total env.block.time r s)

withdraw_locked-total :
    (env : Env) (info : MessageInfo) (dst : Addr) (s : Store)
    → fixed (execute_internal_withdraw_locked env info dst s).1 ≡ fixed s
unfolding execute_internal_withdraw_locked
withdraw_locked-total env info dst s = ground arith

-- The denomination and the total are what they were, whatever message anyone sends.
pub execute-fixed :
    (h : Host) (querier : Querier) (env : Env) (info : MessageInfo) (msg : ExecuteMsg) (s : Store)
    → fixed (execute h querier env info msg s).1 ≡ fixed s
execute-fixed h querier env info msg s =
    (execute-Keeps {P = λ t. fixed t ≡ fixed s} env info
        (λ t u same e. ap (λ m. (m.denom, m.total_amount)) same ∙ e)
        (λ amount. record { at = λ t e. withdraw_unlocked-total env info amount t ∙ e })
        (λ dst. record { at = λ t e. withdraw_locked-total env info dst t ∙ e }) (λ n t e. e)
        (λ a t e. e) (λ a t e. e) h querier msg).at
      s refl

pub execute-total_amount :
    (h : Host) (querier : Querier) (env : Env) (info : MessageInfo) (msg : ExecuteMsg) (s : Store)
    → (execute h querier env info msg s).1.total_amount ≡ s.total_amount
execute-total_amount h querier env info msg s =
    ap (λ p. p.1) (execute-fixed h querier env info msg s)
