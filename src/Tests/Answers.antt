-- ===== src/Tests/Answers.antt =====
-- Runs of the unit tests of contract.rs on queries, over an encoding of answers that can be read back, and
-- of that of `migrate`, over an order of versions.
use gringotts.Base.{◌≡◌, ap, ◌∙◌, [], ◌∷◌, refl, ⊤, Bool, true, false, String}
use gringotts.Word.{add64, add128, sum128}
use gringotts.Error.{Result, ok}
use gringotts.Exec.{Exec}
use gringotts.Cosmos.{Binary, Env, yes_vote, no_vote}
use gringotts.Msg.{
  QueryMsg, QueryAnswer, list_proposals, list_votes, list_admins, list_ops, info, config,
  total_vested,
}
use gringotts.State.{Store}
use gringotts.Tranche.{validate}
use gringotts.Storage.{may_load, insert}
use gringotts.Vesting.{total_vested_amount}
use gringotts.Contract.Instantiate.{instantiate}
use gringotts.Contract.Query.{query}
use gringotts.Contract.Migrate.{migrate, version_handler, migrate_109_handler}
use gringotts.UnitTests.Mock.{Mock}
use gringotts.UnitTests.Answers.{answer_eq}
use gringotts.UnitTests.Equality.{◌==◌}
use gringotts.UnitTests.Queries
use gringotts.UnitTests.Migration
use gringotts.UnitTests.Setup
use gringotts.Tests.Mocked.{mock, outcome}
use gringotts.Tests.Fixtures.{blank}

methods : Unit {0}
unfolding add64 add128 sum128 validate may_load insert total_vested_amount instantiate query migrate
    version_handler migrate_109_handler
methods = tt

module _ (encode : QueryAnswer → Result Binary) (decode : Binary → Result QueryAnswer)
    (reads_back : (a : QueryAnswer) → (b : Binary) × (encode a ≡ ok b) × (decode b ≡ ok a)) where
  abbrev encoding : Mock
  encoding = record mock {
    host = record mock.host { answer_binary = encode };
    from_binary = decode;
  }

  -- A query whose answer is the expected one passes its assertion.
  assert_answers_runs :
      (env : Env) (msg : QueryMsg) (answer : QueryAnswer) (s : Store)
      → query encoding.host env msg s ≡ encode answer
      → (answer == answer) ≡ true
      → Queries.assert_answers encoding env msg answer s ≡ (ok tt, s)
  assert_answers_runs env msg answer s shown same =
      let (bin, encoded, decoded) = reads_back answer in rw (shown, encoded, decoded, same) refl

  abbrev year_later : Env
  year_later = record mock.env {
    block = record mock.env.block { time = mock.plus_seconds mock.env.block.time 31536000 };
  }

  -- A test that ends in such an assertion on `s`.
  query_runs :
      (test : Exec Store ⊤) (env : Env) (msg : QueryMsg) (s : Store) {answer : QueryAnswer}
      → query encoding.host env msg s ≡ encode answer
      → (answer == answer) ≡ true
      → test blank ≡ Queries.assert_answers encoding env msg answer s
      → outcome test ≡ ok tt
  query_runs test env msg s {answer} shown same e =
      ap (λ r. r.0) (e ∙ assert_answers_runs env msg answer s shown same)

  abbrev two_ballots : Store
  two_ballots = record blank {
    ballots =
        ((1, "admin"), record { weight = 1; vote = yes_vote })
        ∷ ((2, "admin"), record { weight = 1; vote = no_vote })
        ∷ [];
  }

  abbrev set_up : Store
  set_up = (Setup.set_up_by encoding Setup.owner blank).1

  queries_runs :
      (outcome (Queries.test_query_proposals encoding) ≡ ok tt)
      × (outcome (Queries.test_query_votes encoding) ≡ ok tt)
      × (outcome (Queries.test_query_admins encoding) ≡ ok tt)
      × (outcome (Queries.test_query_ops encoding) ≡ ok tt)
      × (outcome (Queries.test_query_info encoding) ≡ ok tt)
      × (outcome (Queries.test_query_config encoding) ≡ ok tt)
      × (outcome (Queries.test_query_total_vested_amount encoding) ≡ ok tt)
  unfolding methods
  queries_runs = (
    query_runs (Queries.test_query_proposals encoding) mock.env list_proposals
        (Queries.save_proposal 1 (Queries.stored_proposal encoding) blank).1 refl refl refl,
    query_runs (Queries.test_query_votes encoding) mock.env (list_votes 1) two_ballots refl refl
        refl,
    query_runs (Queries.test_query_admins encoding) mock.env list_admins set_up refl refl refl,
    query_runs (Queries.test_query_ops encoding) mock.env list_ops set_up refl refl refl,
    query_runs (Queries.test_query_info encoding) mock.env info set_up refl refl refl,
    query_runs (Queries.test_query_config encoding) mock.env config set_up refl refl refl,
    query_runs (Queries.test_query_total_vested_amount encoding) year_later total_vested set_up refl
        refl refl,
  )

migration_runs :
    {Version : Type 0} (parse : String → Result Version) (at_least : Version → Version → Bool)
    (old new : Version)
    → parse "0.0.1" ≡ ok old
    → parse "0.1.9" ≡ ok new
    → at_least old new ≡ false
    → at_least new new ≡ true
    → outcome (Migration.test_migration mock parse at_least) ≡ ok tt
unfolding methods
migration_runs parse at_least old new e f below same = rw (e, f, below, f, f, same) refl
