-- ===== src/Spool/Purges.antt =====
-- What a purge removes, and the life of the spool: its operations one after the other.
use pitlane_agent.Common.{
  String, ◌≡◌, refl, ap, sym, ◌∙◌, inl, inr, some, true, false, List, [], ◌∷◌, str_eq, arith,
  eq_iff, map, map_option, Option-cases, Bool-cases, ltb, length,
}
use pitlane_agent.Common.Dict.{Dict, lookup, lookup-insert, lookup-remove}
use pitlane_agent.Spool.Types.{Library, Artifact, Spool}
use pitlane_agent.Spool.Deliveries.{artifact, Scope, resync_artifacts, resync_entry}
use pitlane_agent.Spool.Purge.{
  Order, Summary, purge_eligible, purge_one, purge_ids, purge_delivered, set_purged, is_purgeable,
  requested_ids,
}
use pitlane_agent.Spool.Stored.{IsStored, has_copy}

module _ (lib : Library) where
  purge_one-IsStored :
      (o : Order) (id : String) (s : Spool) (m : Summary)
      → IsStored lib s
      → IsStored lib (purge_one lib o id s m).0
  unfolding purge_one purge_eligible artifact
  purge_one-IsStored o id s m v = elim (Option-cases (lookup (lib.path_name id) s.artifacts)) [
    | inl n ↦ rw (n, purge_one, artifact) v
    | inr (a, p) ↦
        let key = lib.path_name id in
        record {
          name = λ k b q. ground (
            arith,
            q,
            p,
            v.name key a,
            v.name k b,
            lookup-insert key k (set_purged (lib.utc_iso o.now) a) s.artifacts,
            eq_iff key k,
          );
          copy = λ k b q. ground (
            arith,
            q,
            p,
            v.name key a,
            v.name k b,
            v.copy k b,
            lookup-insert key k (set_purged (lib.utc_iso o.now) a) s.artifacts,
            eq_iff key k,
            lookup-remove a.artifact_id b.artifact_id s.files,
            eq_iff a.artifact_id b.artifact_id,
          );
        }
  ]

  -- An artifact that may not be purged survives the step, with its copy.
  purge_one-protects :
      (o : Order) (id : String) (s : Spool) (m : Summary) (k : String) (b : Artifact)
      → IsStored lib s
      → lookup k s.artifacts ≡ some b
      → is_purgeable o.instance_id b ≡ false
      → (lookup k (purge_one lib o id s m).0.artifacts ≡ some b)
        × (lookup b.artifact_id (purge_one lib o id s m).0.files ≡ lookup b.artifact_id s.files)
  unfolding purge_one purge_eligible artifact
  purge_one-protects o id s m k b v q safe =
      elim (Option-cases (lookup (lib.path_name id) s.artifacts)) [
        | inl n ↦ rw (n, purge_one, artifact) (q, refl)
        | inr (a, p) ↦
            let key = lib.path_name id in
            ground (
              arith,
              q,
              p,
              safe,
              v.name key a p,
              v.name k b q,
              lookup-insert key k (set_purged (lib.utc_iso o.now) a) s.artifacts,
              eq_iff key k,
              lookup-remove a.artifact_id b.artifact_id s.files,
              eq_iff a.artifact_id b.artifact_id,
            )
      ]

  purge_ids-protects :
      (o : Order) (ids : List String) (s : Spool) (m : Summary) (k : String) (b : Artifact)
      → IsStored lib s
      → lookup k s.artifacts ≡ some b
      → is_purgeable o.instance_id b ≡ false
      → (lookup k (purge_ids lib o ids s m).0.artifacts ≡ some b)
        × (lookup b.artifact_id (purge_ids lib o ids s m).0.files ≡ lookup b.artifact_id s.files)
  unfolding purge_ids
  purge_ids-protects o [] s m k b v q safe = (q, refl)
  purge_ids-protects o (id ∷ ids) s m k b v q safe =
      let r = purge_one lib o id s m in
      let (x, y) = purge_one-protects o id s m k b v q safe in
      let (z, w) = purge_ids-protects o ids r.0 r.1 k b (purge_one-IsStored o id s m v) x safe in
      elim (Bool-cases r.2) [
        | inl t ↦ rw (t, purge_ids) (z, w ∙ y)
        | inr f ↦ rw (f, purge_ids) (x, y)
      ]

  -- A purge, however it ends, touches no artifact but those of the instance that was asked for that are
  -- delivered and come from a practice or a warm-up: all others keep their manifest and their copy.
  pub purge_protects :
      (o : Order) (ids : List String) (s : Spool) (k : String) (b : Artifact)
      → IsStored lib s
      → lookup k s.artifacts ≡ some b
      → is_purgeable o.instance_id b ≡ false
      → (lookup k (purge_delivered lib o ids s).0.artifacts ≡ some b)
        × (lookup b.artifact_id (purge_delivered lib o ids s).0.files
            ≡ lookup b.artifact_id s.files)
  unfolding purge_delivered
  purge_protects o ids s k b v q safe = elim (Bool-cases (ltb 1000 (length (requested_ids ids)))) [
    | inl t ↦ rw (t, purge_delivered) (q, refl)
    | inr f ↦ rw (f, purge_delivered) (purge_ids-protects o (requested_ids ids) s _ k b v q safe)
  ]

  purge_ids-IsStored :
      (o : Order) (ids : List String) (s : Spool) (m : Summary)
      → IsStored lib s
      → IsStored lib (purge_ids lib o ids s m).0
  unfolding purge_ids
  purge_ids-IsStored o [] s m v = v
  purge_ids-IsStored o (id ∷ ids) s m v =
      let r = purge_one lib o id s m in
      let w = purge_one-IsStored o id s m v in
      elim (Bool-cases r.2) [
        | inl t ↦ rw (t, purge_ids) (purge_ids-IsStored o ids r.0 r.1 w)
        | inr f ↦ rw (f, purge_ids) w
      ]

  pub purge-IsStored :
      (o : Order) (ids : List String) (s : Spool)
      → IsStored lib s
      → IsStored lib (purge_delivered lib o ids s).0
  unfolding purge_delivered
  purge-IsStored o ids s v = elim (Bool-cases (ltb 1000 (length (requested_ids ids)))) [
    | inl t ↦ rw (t, purge_delivered) v
    | inr f ↦ rw (f, purge_delivered) (purge_ids-IsStored o (requested_ids ids) s _ v)
  ]

  lookup-resync :
      (f : Scope) (k : String) (d : Dict Artifact)
      → lookup k (map (resync_entry f) d) ≡ map_option (λ a. (resync_entry f (k, a)).1) (lookup k d)
  unfolding lookup resync_entry
  lookup-resync f k [] = refl
  lookup-resync f k ((j, a) ∷ d) = elim (Bool-cases (str_eq j k)) [
    | inl t ↦ rw (t, lookup, resync_entry) refl
    | inr n ↦ rw (n, lookup, resync_entry) (lookup-resync f k d)
  ]

  entry_id :
      (f : Scope) (k : String) (a : Artifact)
      → (resync_entry f (k, a)).1.artifact_id ≡ a.artifact_id
  unfolding resync_entry
  entry_id f k a = ground arith

  entry_has_copy :
      (f : Scope) (k : String) (a : Artifact) (files : Dict String)
      → has_copy files a ≡ true
      → has_copy files (resync_entry f (k, a)).1 ≡ true
  unfolding resync_entry
  entry_has_copy f k a files h = ground (arith, h)

  pub resync-IsStored :
      (f : Scope) (s : Spool) → IsStored lib s → IsStored lib (resync_artifacts f s).0
  unfolding resync_artifacts
  resync-IsStored f s v = record {
    name = λ k b q. elim (Option-cases (lookup k s.artifacts)) [
      | inl n ↦ absurd (ground (arith, q, n, lookup-resync f k s.artifacts))
      | inr (a, p) ↦ entry_name k a b p (ground (arith, q, p, lookup-resync f k s.artifacts))
    ];
    copy = λ k b q. elim (Option-cases (lookup k s.artifacts)) [
      | inl n ↦ absurd (ground (arith, q, n, lookup-resync f k s.artifacts))
      | inr (a, p) ↦ entry_copy k a b p (ground (arith, q, p, lookup-resync f k s.artifacts))
    ];
  }
    where
      entry_name :
          (k : String) (a b : Artifact)
          → lookup k s.artifacts ≡ some a
          → (resync_entry f (k, a)).1 ≡ b
          → k ≡ lib.path_name b.artifact_id
      entry_name k a b p e =
          v.name k a p ∙ ap lib.path_name (sym (entry_id f k a) ∙ ap (λ x. x.artifact_id) e)

      entry_copy :
          (k : String) (a b : Artifact)
          → lookup k s.artifacts ≡ some a
          → (resync_entry f (k, a)).1 ≡ b
          → has_copy s.files b ≡ true
      entry_copy k a b p e = rw (← e) (entry_has_copy f k a s.files (v.copy k a p))
