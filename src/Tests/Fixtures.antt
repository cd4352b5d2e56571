-- ===== src/Tests/Fixtures.antt =====
-- A host, a querier and a contract for the tests: they show that what the theorems ask for can be met.
use native.Mathlib.Nat.{mul_right_comm, mul-le-mul_left}
use gringotts.Base.{
  ℕ, ◌+◌, ◌-◌, ◌*◌, ◌/◌, ◌≡◌, ◌≢◌, ◌⊎◌, ◌≤◌, refl, Bool, true, false, leb, if◌then◌else◌, String,
  [], ◌∷◌, none, arith,
}
use gringotts.Error.{ok}
use gringotts.Cosmos.{
  BlockInfo, Env, MessageInfo, Coin, Vote, yes_vote, no_vote, abstain_vote, veto_vote, Votes,
  Status, open_status, passed, rejected, Duration, height, time, Expiration, at_height, at_time,
  never, Threshold, absolute_count, absolute_percentage, threshold_quorum, ThresholdResponse,
  absolute_count_of, absolute_percentage_of, threshold_quorum_of, Proposal,
}
use gringotts.Host.{Host, IsLawful, IsTallying, IsCounting, Querier}
use gringotts.Msg.{InstantiateMsg}
use gringotts.State.{Store}

abbrev pub blank : Store
blank = record {
  contract_info = none;
  denom = none;
  vesting_timestamps = none;
  vesting_amounts = none;
  total_amount = none;
  unlock_distribution_address = none;
  staking_reward_address = none;
  withdrawn_staking_rewards = none;
  withdrawn_unlocked = none;
  withdrawn_locked = none;
  admins = [];
  ops = [];
  max_voting_period = none;
  admin_voting_threshold = none;
  proposal_count = none;
  ballots = [];
  proposals = [];
}

abbrev after : Duration → BlockInfo → Expiration
after (height n) b = at_height (b.height + n)
after (time n) b = at_time (b.time + n * 1000000000)

abbrev is_expired : Expiration → BlockInfo → Bool
is_expired (at_height n) b = leb n b.height
is_expired (at_time t) b = leb t b.time
is_expired never b = false

abbrev to_response : Threshold → ℕ → ThresholdResponse
to_response (absolute_count w) total = absolute_count_of w total
to_response (absolute_percentage p) total = absolute_percentage_of p total
to_response (threshold_quorum t q) total = threshold_quorum_of t q total

abbrev add_vote : Votes → Vote → ℕ → Votes
add_vote v yes_vote w = record v { yes_weight = v.yes_weight + w }
add_vote v no_vote w = record v { no_weight = v.no_weight + w }
add_vote v abstain_vote w = record v { abstain_weight = v.abstain_weight + w }
add_vote v veto_vote w = record v { veto_weight = v.veto_weight + w }

abbrev reaches : Threshold → ℕ → ℕ → Bool
reaches (absolute_count w) yes_weight total = leb w yes_weight
reaches (absolute_percentage p) yes_weight total =
    leb (p * total) (yes_weight * 1000000000000000000)
reaches (threshold_quorum t q) yes_weight total = leb (t * total) (yes_weight * 1000000000000000000)

abbrev status_at : Status → Bool → Bool → Status
status_at open_status enough over =
    if enough then passed else if over then rejected else open_status
status_at status enough over = status

abbrev current_status : Proposal → BlockInfo → Status
current_status p b =
    status_at p.status (reaches p.threshold p.votes.yes_weight p.total_weight)
      (is_expired p.expires b)

abbrev pub host : Host
host = record {
  seconds = λ t. t / 1000000000;
  after = after;
  is_expired = is_expired;
  percent = λ n. n * 10000000000000000;
  to_response = to_response;
  votes_yes = λ w. record { yes_weight = w; no_weight = 0; abstain_weight = 0; veto_weight = 0 };
  add_vote = add_vote;
  current_status = current_status;
  update_status = λ p b. record p { status = current_status p b };
  message_binary = λ msg. ok [];
  answer_binary = λ answer. ok [];
}

status_at-not_open :
    (status : Status) (enough over : Bool)
    → status ≢ open_status
    → status_at status enough over ≡ status
status_at-not_open status enough over h = ground arith

pub host-IsLawful : IsLawful host
host-IsLawful = record {
  seconds_lem = λ t. refl;
  votes_yes_lem = λ w. refl;
  add_vote_lem = λ v w h. refl;
  update_status_lem = λ p b. refl;
  current_status_lem = λ p b h.
      status_at-not_open p.status (reaches p.threshold p.votes.yes_weight p.total_weight)
        (is_expired p.expires b) h;
}

stays_open :
    (status : Status) (enough : Bool)
    → status ≡ open_status
    → (status_at status enough false ≡ open_status) ⊎ (status_at status enough false ≡ passed)
stays_open status enough e = ground arith

enough_passes :
    (status : Status) (over : Bool) → status ≡ open_status → status_at status true over ≡ passed
enough_passes status over e = ground arith

reached :
    (t : Threshold) (d y w : ℕ)
    → t ≡ absolute_percentage d
    → d * w ≤ y * 1000000000000000000
    → reaches t y w ≡ true
reached t d y w e enough = ground arith

pub host-IsTallying : IsTallying host
host-IsTallying = record {
  votes_yes_others = λ w. (refl, refl);
  add_vote_others = λ v w. (refl, refl);
  passes_lem = λ p b d is_open by enough.
      rw (reached p.threshold d p.votes.yes_weight p.total_weight by enough)
        (enough_passes p.status (is_expired p.expires b) is_open);
  stays_lem = λ p b is_open running no_zero veto_zero.
      rw running
        (stays_open p.status (reaches p.threshold p.votes.yes_weight p.total_weight) is_open);
}

passed_enough :
    (status : Status) (enough over : Bool)
    → status ≡ open_status
    → status_at status enough over ≡ passed
    → enough ≡ true
passed_enough status enough over e now = ground arith

reached_only :
    (t : Threshold) (n y w a : ℕ)
    → t ≡ absolute_percentage (n * 10000000000000000)
    → reaches t y w ≡ true
    → n * (w - a) ≤ y * 100
reached_only t n y w a e enough =
    let whole : n * 10000000000000000 * w ≤ y * 1000000000000000000 = ground arith in
    let scaled : n * 10000000000000000 * w ≡ n * w * 10000000000000000 =
      mul_right_comm n 10000000000000000 w in
    let less : n * (w - a) ≤ n * w = mul-le-mul_left n (omega arith) in
    omega (arith, whole, scaled, less)

pub host-IsCounting : IsCounting host
host-IsCounting = record {
  votes_yes_abstain = λ w. refl;
  add_vote_abstain = λ v w. refl;
  passed_lem = λ p b n is_open by now.
      reached_only p.threshold n p.votes.yes_weight p.total_weight p.votes.abstain_weight by (
        passed_enough p.status (reaches p.threshold p.votes.yes_weight p.total_weight)
          (is_expired p.expires b) is_open now);
}

abbrev pub querier : Querier
querier = record {
  query_balance = λ addr denom. ok (record { denom = denom; amount = 0 });
  query_all_delegations = λ addr. ok [];
  query_delegation = λ addr validator. ok none;
  query_custom = λ request. ok (record { entries = [] });
}

abbrev pub env_at : ℕ → Env
env_at now = record { block = record { height = 1; time = now }; address = "contract" }

abbrev pub sent_by : String → MessageInfo
sent_by sender = record { sender = sender; funds = [] }

abbrev pub usei : ℕ → Coin
usei n = record { denom = "usei"; amount = n }

abbrev pub setup : InstantiateMsg
setup = record {
  admins = "voter1" ∷ "voter2" ∷ "voter3" ∷ "voter4" ∷ [];
  ops = "voter5" ∷ "voter6" ∷ [];
  tranche = record {
    denom = "usei";
    vesting_timestamps = 2000000000 ∷ 3000000000 ∷ 4000000000 ∷ [];
    vesting_amounts = 10 ∷ 9 ∷ 11 ∷ [];
    unlocked_token_distribution_address = "unlock1";
    staking_reward_distribution_address = "reward1";
  };
  max_voting_period = time 3600;
  admin_voting_threshold_percentage = 75;
}
