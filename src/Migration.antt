-- ===== src/Migration.antt =====
-- What `migrate` of contract.rs does to the store.
use mathlib.Core.Path.{subst}
use gringotts.Base.{
  sym, ap, ◌≡◌, ◌⊎◌, Bool, true, false, String, str_eq, str_eq_iff, some, arith, Option-cases,
  Bool-cases, inl, inr,
}
use gringotts.Error.{Result, ok, IsOk, Result-cases}
use gringotts.Cosmos.{Env, new_response}
use gringotts.State.{Store, ContractVersion}
use gringotts.Access.{Refuses}
use gringotts.Contract.Instantiate.{contract_name, contract_version}
use gringotts.Contract.Migrate.{migrate}

abbrev current_version : ContractVersion
current_version = record { contract = contract_name; version = contract_version }

abbrev pub upgraded : Store → Store
upgraded s = record s { contract_info = some current_version }

module _ {Version : Type 0} (parse : String → Result Version)
    (at_least : Version → Version → Bool) where
  -- The stored version is of this contract, and is not at least the new one.
  pub record IsUpgrade (s : Store) : Type 0 where
    pub info : ContractVersion
    pub stored : Version
    pub new : Version
    pub has_info : s.contract_info ≡ some info
    pub same_contract : info.contract ≡ contract_name
    pub parsed : parse info.version ≡ ok stored
    pub parsed_new : parse contract_version ≡ ok new
    pub older : at_least stored new ≡ false

  -- Where the stored version parses, as the new one does, is of the same contract and is not at least the
  -- new one, a migration succeeds, and writes the new version and nothing else; in every other case it does
  -- not succeed and writes nothing.
  pub migrate_outcome :
      (env : Env) (s : Store)
      → (IsUpgrade s × (migrate parse at_least env s ≡ (ok new_response, upgraded s)))
        ⊎ ((¬ IsUpgrade s) × Refuses s (migrate parse at_least env s))
  unfolding migrate
  migrate_outcome env s = elim (Option-cases s.contract_info) [
    | inl absent ↦ inr (λ up. ground (arith, up.has_info), ground arith)
    | inr (info, has_info) ↦ elim (Result-cases (parse info.version)) [
      | inr failed ↦ inr (λ up. ground (arith, up.has_info, up.parsed), ground arith)
      | inl (stored, parsed) ↦ elim (Result-cases (parse contract_version)) [
        | inr failed ↦ inr (λ up. ground (arith, up.parsed_new), ground arith)
        | inl (new, parsed_new) ↦ elim (Bool-cases (at_least stored new)) [
          | inl newer ↦
              inr (
                λ up. ground (arith, up.has_info, up.parsed, up.parsed_new, up.older),
                ground arith,
              )
          | inr older ↦ elim (Bool-cases (str_eq info.contract contract_name)) [
            | inr other ↦ inr (
              λ up.
                  ground
                    (arith, up.has_info, up.same_contract, str_eq_iff info.contract contract_name),
              ground arith,
            )
            | inl same ↦ inl (
              record {
                info = info;
                stored = stored;
                new = new;
                has_info = has_info;
                same_contract = (str_eq_iff info.contract contract_name).0 same;
                parsed = parsed;
                parsed_new = parsed_new;
                older = older;
              },
              ground arith,
            )
          ]
        ]
      ]
    ]
  ]

  module _ (reflexive : (v : Version) → at_least v v ≡ true) where
    upgraded_again : (s : Store) → IsUpgrade (upgraded s) → ⊥
    upgraded_again s up =
        ground (arith, up.has_info, up.parsed, up.parsed_new, up.older, reflexive up.new)

    upgraded-Refuses :
        (env : Env) (s : Store) → Refuses (upgraded s) (migrate parse at_least env (upgraded s))
    upgraded-Refuses env s = elim (migrate_outcome env (upgraded s)) [
      | inl (up, _) ↦ absurd (upgraded_again s up)
      | inr (_, refused) ↦ refused
    ]

    -- Where every version is at least itself, a second migration after one that succeeded does not
    -- succeed, and writes nothing.
    migrate-migrate :
        (env env' : Env) (s : Store)
        → IsOk (migrate parse at_least env s).0
        → let s' = (migrate parse at_least env s).1 in Refuses s' (migrate parse at_least env' s')
    migrate-migrate env env' s e = elim (migrate_outcome env s) [
      | inl (up, done) ↦
          subst (λ t. Refuses t (migrate parse at_least env' t)) (sym (ap (λ r. r.1) done))
            (upgraded-Refuses env' s)
      | inr (_, refused) ↦ absurd (refused.0 e)
    ]
