-- ===== src/Config/Launching.antt =====
-- What the preparation of a launch does to the files.
use mathlib.Core.Path.{subst}
use pitlane_agent.Common.{
  String, ◌≡◌, refl, ap, ◌∙◌, ◌⊎◌, inl, inr, Option, some, Bool, true, arith, Bool-cases,
  Option-cases, str_eq, str_eq_refl, false, if◌then◌else◌,
}
use pitlane_agent.Common.Json.{Value, Fields, object, get}
use pitlane_agent.Common.Dict.{Dict, lookup, insert, lookup-insert}
use pitlane_agent.Config.Policy.{normalize_runtime_policy}
use pitlane_agent.Config.Files.{
  Naming, Files, launch_file, current_name, save_once, is_saved, save_current_config,
}
use pitlane_agent.Config.Finalize.{
  Local, Instance, Finalized, final, out_of_sync, refused, finalize_launch_config,
}
use pitlane_agent.Config.Prepare.{
  Prepared, prepared, failed, bundle_invalid, ports_out_of_sync, Checked, passed, rejected, raised,
  check_bundle, save_configs, after_finalize, prepare_launch,
}
use pitlane_agent.Config.Histories.{
  Keeps, Holds, save_once-IsOnce, IsQuiet, quiet, finalize-IsQuiet,
}

-- The current configuration of the instance is `v`, and the history of the launch holds it.
pub record IsRecorded (n : Naming) (i : Instance) (launch_id v : Value) (g : Files) : Type 0 where
  pub current : lookup (current_name n i.id) g.current ≡ some (some v)
  pub past : Holds (launch_file n launch_id i.id) v g.history

-- No file but one has changed.
pub record IsOnly (name : String) (d e : Dict (Option Value)) : Type 0 where
  pub others : (k : String) → str_eq name k ≡ false → lookup k e ≡ lookup k d

-- What a preparation may do: all files of the history and of the entry lists stay; the current
-- configurations stay too, or that of the instance, and no other, becomes one that the history holds.
pub record IsSafe (n : Naming) (i : Instance) (launch_id : Value) (f g : Files) : Type 0 where
  pub history : Keeps f.history g.history
  pub entry_lists : Keeps f.entry_lists g.entry_lists
  pub current :
      (g.current ≡ f.current)
      ⊎ ((c : Fields) × (IsRecorded n i launch_id (object c) g
            × IsOnly (current_name n i.id) f.current g.current))

-- The same, with the outcome: a configuration that is prepared is recorded.
pub record IsOutcome (n : Naming) (i : Instance) (launch_id : Value) (f : Files)
    (r : Files × Prepared) : Type 0 where
  pub safe : IsSafe n i launch_id f r.0
  pub recorded :
      (c : Fields) (policy : Bool) (hash : Option String)
      → r.1 ≡ prepared c policy hash
      → IsRecorded n i launch_id (object c) r.0

quiet-IsOutcome :
    (l : Local) (i : Instance) (launch_id : Value) (f g : Files) (r : Prepared)
    → IsQuiet f g
    → ((c : Fields) (policy : Bool) (hash : Option String) → r ≡ prepared c policy hash → ⊥)
    → IsOutcome l.naming i launch_id f (g, r)
quiet-IsOutcome l i launch_id f g r q never = record {
  safe = record {
    history = λ k v e. ap (λ d. lookup k d) q.history ∙ e;
    entry_lists = q.entry_lists;
    current = inl q.current;
  };
  recorded = λ c policy hash e. absurd (never c policy hash e);
}

insert-IsOnly :
    (k : String) (v : Option Value) {d e : Dict (Option Value)} → e ≡ d → IsOnly k d (insert k v e)
insert-IsOnly k v {d = d} {e = e} same = record {
  others = λ j f. ground (arith, lookup-insert k j v e, f, ap (λ x. lookup j x) same);
}

found_here :
    (k : String) (v : Option Value) (d : Dict (Option Value)) → lookup k (insert k v d) ≡ some v
found_here k v d = ground (arith, lookup-insert k k v d, str_eq_refl k)

prepared_config :
    (c d : Fields) (p q : Bool) (h k : Option String) {b : Bool}
    → b ≡ true
    → (if b then prepared c p h else failed) ≡ prepared d q k
    → c ≡ d
prepared_config c d p q h k t e = let it : prepared c p h ≡ prepared d q k = rw t at e in cc

save_configs-IsOutcome :
    (encodes : Fields → Bool) (l : Local) (i : Instance) (launch_id : Value) (config : Fields)
    (policy : Bool) (hash : Option String) (f g : Files)
    → IsQuiet f g
    → IsOutcome l.naming i launch_id f (save_configs encodes l i launch_id config policy hash g)
unfolding save_configs save_current_config
save_configs-IsOutcome encodes l i launch_id config policy hash f g q =
    let name = launch_file l.naming launch_id i.id in
    let once = save_once-IsOnce l.writes name (object config) g.history in
    let past : Keeps f.history (save_once l.writes name (object config) g.history).0 =
      λ k v e. once.keeps k v (ap (λ d. lookup k d) q.history ∙ e) in
    elim (Bool-cases (is_saved (save_once l.writes name (object config) g.history).1)) [
      | inr n ↦
          rw (n, save_configs)
            (record {
              safe = record {
                history = past;
                entry_lists = q.entry_lists;
                current = inl q.current;
              };
              recorded = λ c p h e. absurd (cc);
            })
      | inl saved ↦ elim (Bool-cases l.writes_current) [
        | inr n ↦
            rw (saved, save_configs, save_current_config, n)
              (record {
                safe = record {
                  history = past;
                  entry_lists = q.entry_lists;
                  current = inl q.current;
                };
                recorded = λ c p h e. absurd (cc);
              })
        | inl t ↦
            let g' : Files = record g {
              history = (save_once l.writes name (object config) g.history).0;
              current = insert (current_name l.naming i.id) (some (object config)) g.current;
            } in
            let done : IsRecorded l.naming i launch_id (object config) g' = record {
              current = found_here (current_name l.naming i.id) (some (object config)) g.current;
              past = once.holds saved;
            } in
            rw (saved, save_configs, save_current_config, t)
              (record {
                safe = record {
                  history = past;
                  entry_lists = q.entry_lists;
                  current = inr (
                    config,
                    (
                      done,
                      insert-IsOnly (current_name l.naming i.id) (some (object config)) q.current,
                    ),
                  );
                };
                recorded = λ c p h e. elim (Bool-cases (encodes config)) [
                  | inl yes_it ↦
                      subst (λ x. IsRecorded l.naming i launch_id (object x) g')
                        (prepared_config config c policy p hash h yes_it e) done
                  | inr no_it ↦ absurd (ground (arith, e, no_it))
                ];
              })
      ]
    ]

-- The preparation of a launch, however it ends, changes no file of the history or of the entry lists that
-- was there before; it changes no current configuration but that of the instance, and that one only to
-- one that the history of the launch holds; a configuration that it prepares is then the current one.
pub prepare_launch-IsOutcome :
    (encodes : Fields → Bool) (l : Local) (i : Instance) (body config : Fields) (f : Files)
    → IsOutcome l.naming i (get body "launch_id") f (prepare_launch encodes l i body config f)
unfolding prepare_launch
prepare_launch-IsOutcome encodes l i body config f =
    let id = get body "launch_id" in
    elim (Option-cases (normalize_runtime_policy (get body "runtime_policy"))) [
      | inl n ↦
          rw (n, prepare_launch)
            (quiet-IsOutcome l i id f f failed (quiet f) (λ c p h e. absurd (cc)))
      | inr (policy, p) ↦ elim (Checked-cases (check_bundle l body config)) [
        | inl (hash, q) ↦
            rw (p, prepare_launch, q)
              (finalized (finalize_launch_config l i config f) policy hash
                (finalize-IsQuiet l i config f))
        | inr (inl q) ↦
            rw (p, prepare_launch, q)
              (quiet-IsOutcome l i id f f bundle_invalid (quiet f) (λ c p h e. absurd (cc)))
        | inr (inr q) ↦
            rw (p, prepare_launch, q)
              (quiet-IsOutcome l i id f f failed (quiet f) (λ c p h e. absurd (cc)))
      ]
    ]
  where
    Checked-cases :
        (c : Checked) → ((h : Option String) × (c ≡ passed h)) ⊎ ((c ≡ rejected) ⊎ (c ≡ raised))
    Checked-cases (passed h) = inl (h, refl)
    Checked-cases rejected = inr (inl refl)
    Checked-cases raised = inr (inr refl)

    finalized :
        (r : Files × Finalized) (policy : Bool) (hash : Option String)
        → IsQuiet f r.0
        → IsOutcome l.naming i
            (get body "launch_id")
            f
            (after_finalize encodes l i (get body "launch_id") policy hash r)
    finalized (g, final c) policy hash q =
        save_configs-IsOutcome encodes l i (get body "launch_id") c policy hash f g q
    finalized (g, out_of_sync) policy hash q =
        quiet-IsOutcome l i (get body "launch_id") f g ports_out_of_sync q (λ c p h e. absurd (cc))
    finalized (g, refused) policy hash q =
        quiet-IsOutcome l i (get body "launch_id") f g failed q (λ c p h e. absurd (cc))
