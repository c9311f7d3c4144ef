-- ===== src/Config/Histories.antt =====
-- What the saves and the finalisation of a configuration do to the files.
use pitlane_agent.Common.{
  String, ◌≡◌, refl, ap, ◌∙◌, ◌⊎◌, inl, inr, Option, some, Bool, true, List, arith, Bool-cases,
  Option-cases, eq_iff, str_eq_refl,
}
use pitlane_agent.Common.Json.{
  Value, Fields, null, boolean, integer, text, array, object, get, as_object,
}
use pitlane_agent.Common.Dict.{Dict, lookup, lookup-insert}
use pitlane_agent.Config.Values.{eq_value, eq_number}
use pitlane_agent.Common.Int.{pos}
use pitlane_agent.Config.Files.{Files, Save, launch_file, save_once, is_saved}
use pitlane_agent.Config.EntryList.{native_payload, validated_native_payload}
use pitlane_agent.Config.Finalize.{
  Local, Instance, finalize_launch_config, finalize_server, ports_agree, results_of, entry_list_of,
  materialize_entry_list, save_launch_entry_list, is_text,
}

-- Every file of the first directory is in the second one, unchanged.
abbrev pub Keeps : Dict (Option Value) → Dict (Option Value) → Type 0
Keeps d e = (k : String) (v : Option Value) → lookup k d ≡ some v → lookup k e ≡ some v

-- A directory has a file that holds `v`, up to Python's equality.
abbrev pub Holds : String → Value → Dict (Option Value) → Type 0
Holds k v d =
    (old : Value) × ((lookup k d ≡ some (some old)) × ((old ≡ v) ⊎ (eq_value old v ≡ true)))

-- What a save that does not overwrite guarantees.
pub record IsOnce (name : String) (v : Value) (d : Dict (Option Value))
    (r : Dict (Option Value) × Save) : Type 0 where
  pub keeps : Keeps d r.0
  pub holds : is_saved r.1 ≡ true → Holds name v r.0

pub save_once-IsOnce :
    (writes : Bool) (name : String) (v : Value) (d : Dict (Option Value))
    → IsOnce name v d (save_once writes name v d)
unfolding save_once
save_once-IsOnce writes name v d = elim (Option-cases (lookup name d)) [
  | inl n ↦ elim (Bool-cases writes) [
    | inr f ↦ rw (n, save_once, f) (record { keeps = λ k w e. e; holds = λ h. absurd (cc) })
    | inl t ↦
        rw (n, save_once, t)
          (record {
            keeps = λ k w e. ground (arith, e, n, lookup-insert name k (some v) d, eq_iff name k);
            holds = λ h. (
              v,
              (ground (arith, lookup-insert name name (some v) d, str_eq_refl name), inl refl),
            );
          })
  ]
  | inr (file, p) ↦ elim (Option-cases file) [
    | inl n ↦ rw (p, save_once, n) (record { keeps = λ k w e. e; holds = λ h. absurd (cc) })
    | inr (old, q) ↦ elim (Bool-cases (eq_value old v)) [
      | inl t ↦
          rw (p, save_once, q, t)
            (record { keeps = λ k w e. e; holds = λ h. (old, (p ∙ ap (λ x. some x) q, inr t)) })
      | inr f ↦ rw (p, save_once, q, f) (record { keeps = λ k w e. e; holds = λ h. absurd (cc) })
    ]
  ]
]

-- Only an entry list is added.
pub record IsQuiet (f g : Files) : Type 0 where
  pub current : g.current ≡ f.current
  pub history : g.history ≡ f.history
  pub entry_lists : Keeps f.entry_lists g.entry_lists

pub quiet : (f : Files) → IsQuiet f f
quiet f = record { current = refl; history = refl; entry_lists = λ k v e. e }

save_launch_entry_list-IsQuiet :
    (l : Local) (launch_id : Value) (instance : String) (ids : List String) (f : Files)
    → IsQuiet f (save_launch_entry_list l launch_id instance ids f).0
unfolding save_launch_entry_list
save_launch_entry_list-IsQuiet l launch_id instance ids f = record {
  current = refl;
  history = refl;
  entry_lists =
      (save_once-IsOnce l.writes (launch_file l.naming launch_id instance) (native_payload ids)
        f.entry_lists).keeps;
}

entry_list_of-IsQuiet :
    (l : Local) (launch_id : Value) (instance : String) (d : Fields) (f : Files)
    → IsQuiet f (entry_list_of l launch_id instance d f).0
unfolding entry_list_of
entry_list_of-IsQuiet l launch_id instance d f =
    elim (Bool-cases (eq_number (pos 2) (get d "schema_version"))) [
      | inr n ↦ rw (n, entry_list_of) (quiet f)
      | inl t ↦ elim (Bool-cases (is_text "disabled" (get d "mode"))) [
        | inl off ↦ rw (t, entry_list_of, off) (quiet f)
        | inr on ↦ elim (Bool-cases (is_text "steamid_whitelist" (get d "mode"))) [
          | inr n ↦ rw (t, entry_list_of, on, n) (quiet f)
          | inl w ↦ elim (Option-cases (validated_native_payload l.is_digit d)) [
            | inl n ↦ rw (t, entry_list_of, on, w, n) (quiet f)
            | inr (ids, p) ↦
                rw (t, entry_list_of, on, w, p)
                  (save_launch_entry_list-IsQuiet l launch_id instance ids f)
          ]
        ]
      ]
    ]

materialize-IsQuiet :
    (l : Local) (launch_id : Value) (instance : String) (v : Value) (f : Files)
    → IsQuiet f (materialize_entry_list l launch_id instance v f).0
materialize-IsQuiet l launch_id instance null f = quiet f
materialize-IsQuiet l launch_id instance (object d) f =
    entry_list_of-IsQuiet l launch_id instance d f
materialize-IsQuiet l launch_id instance (boolean _) f = quiet f
materialize-IsQuiet l launch_id instance (integer _) f = quiet f
materialize-IsQuiet l launch_id instance (text _) f = quiet f
materialize-IsQuiet l launch_id instance (array _) f = quiet f

pub finalize-IsQuiet :
    (l : Local) (i : Instance) (config : Fields) (f : Files)
    → IsQuiet f (finalize_launch_config l i config f).0
unfolding finalize_launch_config
finalize-IsQuiet l i config f = elim (Option-cases (as_object (get config "Server"))) [
  | inl n ↦ rw (n, finalize_launch_config) (quiet f)
  | inr (server, p) ↦ elim (Option-cases (ports_agree l i server)) [
    | inl n ↦ rw (p, finalize_launch_config, n) (quiet f)
    | inr (agree, q) ↦ elim (Bool-cases agree) [
      | inr x ↦ rw (p, finalize_launch_config, q, x) (quiet f)
      | inl t ↦ elim (Option-cases (results_of l i server)) [
        | inl n ↦ rw (p, finalize_launch_config, q, t, finalize_server, n) (quiet f)
        | inr (path, r) ↦
            rw (p, finalize_launch_config, q, t, finalize_server, r)
              (materialize-IsQuiet l _ i.id (get config "EntryList") f)
      ]
    ]
  ]
]
