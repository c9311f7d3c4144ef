-- ===== src/Spool/Retries.antt =====
-- What the pipeline does with the artifacts that are due.
use pitlane_agent.Common.{
  ℕ, zero, suc, ◌+◌, ◌*◌, ◌^◌, ◌≤◌, ◌<◌, min, String, ◌≡◌, refl, ◌⊎◌, inl, inr, some, Bool, true,
  false, List, [], ◌∷◌, ◌&&◌, ◌||◌, not, arith, Option-cases, Bool-cases, eq_iff, str_eq, leb, map,
  select, order_by, any, any-order_by,
}
use pitlane_agent.Common.Int.{pos}
use pitlane_agent.Common.Dict.{Dict, lookup, lookup-insert}
use pitlane_agent.Spool.Types.{Library, pending, Artifact, Spool, second, has}
use pitlane_agent.Spool.Deliveries.{
  artifact, update_artifact, mark_delivered, mark_failed, set_delivered, set_failed, retry_delay,
  is_due, due, manifests,
}
use pitlane_agent.Spool.Scans.{Directories, scan_once}
use pitlane_agent.Spool.Pipeline.{
  Answer, answered, unreachable, Server, Upload, accepted, raised, is_intact, read_answer, upload,
  settle, deliver_all, run_once,
}
use pitlane_agent.Spool.Stored.{IsStored, scan_once-IsStored}

pow_bounds : (n : ℕ) → 1 ≤ n → (2 ≤ 2 ^ min n 8) × (2 ^ min n 8 ≤ 256)
pow_bounds zero h = absurd (omega (arith, h))
pow_bounds (suc zero) h = (omega arith, omega arith)
pow_bounds (suc (suc zero)) h = (omega arith, omega arith)
pow_bounds (suc (suc (suc zero))) h = (omega arith, omega arith)
pow_bounds (suc (suc (suc (suc zero)))) h = (omega arith, omega arith)
pow_bounds (suc (suc (suc (suc (suc zero))))) h = (omega arith, omega arith)
pow_bounds (suc (suc (suc (suc (suc (suc zero)))))) h = (omega arith, omega arith)
pow_bounds (suc (suc (suc (suc (suc (suc (suc zero))))))) h = (omega arith, omega arith)
pow_bounds (suc (suc (suc (suc (suc (suc (suc (suc n)))))))) h =
    let e : min (suc (suc (suc (suc (suc (suc (suc (suc n)))))))) 8 ≡ 8 = omega arith in
    rw e (omega arith, omega arith)

delay_bounds : (n : ℕ) → 1 ≤ n → (2 * second ≤ retry_delay n) × (retry_delay n ≤ 256 * second)
unfolding retry_delay
delay_bounds n h = omega (arith, pow_bounds n h)

-- After a failure the artifact is pending with one more attempt; it is due again from some moment on,
-- two seconds later at the earliest and 256 seconds later at the latest.
pub mark_failed-is_due :
    (lib : Library) (now : ℕ) (id error : String) (s : Spool) (a : Artifact)
    → artifact lib id s ≡ some a
    → (b : Artifact) × (artifact lib id (mark_failed lib now id error s) ≡ some b)
      × (b.attempts ≡ a.attempts + 1)
      × (b.status ≡ pending)
      × (now + 2 * second ≤ b.next_attempt_at)
      × (b.next_attempt_at ≤ now + 256 * second)
unfolding mark_failed update_artifact artifact
mark_failed-is_due lib now id error s a e =
    let key = lib.path_name id in
    let d = delay_bounds (a.attempts + 1) (omega arith) in
    (
      set_failed error now a,
      ground (arith, e, lookup-insert key key (set_failed error now a) s.artifacts, eq_iff key key),
      refl,
      refl,
      omega (arith, d),
      omega (arith, d),
    )

-- An artifact counts as delivered only if the copy in the spool has the size and the hash of the
-- artifact and the server has answered this copy with a status between 200 and 299.
pub upload_accepts_only :
    (lib : Library) (server : Server) (a : Artifact) (s : Spool) (status : ℕ)
    → upload lib server a s ≡ accepted status
    → (raw : String) × (lookup a.artifact_id s.files ≡ some raw)
      × (is_intact lib a raw ≡ true)
      × (server.post a raw ≡ answered status)
      × (200 ≤ status)
      × (status < 300)
unfolding upload
upload_accepts_only lib server a s status h = elim (Option-cases (lookup a.artifact_id s.files)) [
  | inl n ↦ absurd (ground (arith, n, h))
  | inr (raw, p) ↦ elim (Bool-cases (is_intact lib a raw)) [
    | inr bad ↦ absurd (ground (arith, p, bad, h))
    | inl good ↦
        let (x, y, z) = read_answer_inv (server.post a raw) (ground (arith, p, good, h)) in
        (raw, p, good, x, y, z)
  ]
]
  where
    read_answer_inv :
        (r : Answer)
        → read_answer server r ≡ accepted status
        → (r ≡ answered status) × (200 ≤ status) × (status < 300)
    read_answer_inv (answered n) e = ground (arith, e)
    read_answer_inv (unreachable m) e = absurd (ground (arith, e))

module _ (lib : Library) (now : ℕ) where
  -- Settling an upload leaves its artifact not due, and the others as they were.
  settle_lem :
      (a : Artifact) (u : Upload) (s : Spool) (k : String) (b : Artifact)
      → lookup k (settle lib now a u s).artifacts ≡ some b
      → (is_due now b ≡ false)
        ⊎ ((str_eq k (lib.path_name a.artifact_id) ≡ false) × (lookup k s.artifacts ≡ some b))
  unfolding mark_delivered mark_failed update_artifact artifact
  settle_lem a (accepted status) s k b h =
      elim (Option-cases (lookup (lib.path_name a.artifact_id) s.artifacts)) [
        | inl n ↦ inr (ground (arith, h, n, eq_iff k (lib.path_name a.artifact_id)))
        | inr (x, p) ↦ elim (Bool-cases (str_eq k (lib.path_name a.artifact_id))) [
          | inl t ↦ inl (
              ground (
                arith,
                h,
                p,
                t,
                eq_iff k (lib.path_name a.artifact_id),
                eq_iff (lib.path_name a.artifact_id) k,
                lookup-insert (lib.path_name a.artifact_id) k
                    (set_delivered (lib.utc_iso now) (pos status) x) s.artifacts,
              ))
          | inr f ↦ inr (
            f,
            ground (
              arith,
              h,
              p,
              f,
              eq_iff k (lib.path_name a.artifact_id),
              eq_iff (lib.path_name a.artifact_id) k,
              lookup-insert (lib.path_name a.artifact_id) k
                  (set_delivered (lib.utc_iso now) (pos status) x) s.artifacts,
            ),
          )
        ]
      ]
  settle_lem a (raised m) s k b h =
      elim (Option-cases (lookup (lib.path_name a.artifact_id) s.artifacts)) [
        | inl n ↦ inr (ground (arith, h, n, eq_iff k (lib.path_name a.artifact_id)))
        | inr (x, p) ↦
            let key = lib.path_name a.artifact_id in
            let later : leb (now + retry_delay (x.attempts + 1)) now ≡ false =
              let d = delay_bounds (x.attempts + 1) (omega arith) in ground (arith, d) in
            elim (Bool-cases (str_eq k key)) [
              | inl t ↦ inl (
                  ground (
                    arith,
                    h,
                    p,
                    t,
                    later,
                    eq_iff k key,
                    eq_iff key k,
                    lookup-insert key k (set_failed m now x) s.artifacts,
                  ))
              | inr f ↦ inr (
                f,
                ground (
                  arith,
                  h,
                  p,
                  f,
                  eq_iff k key,
                  eq_iff key k,
                  lookup-insert key k (set_failed m now x) s.artifacts,
                ),
              )
            ]
      ]

  -- An artifact that is due is still to come.
  abbrev awaits : List Artifact → String → Artifact → Bool
  awaits rest k b = not (is_due now b) || has k (map (λ a. lib.path_name a.artifact_id) rest)

  deliver_all_lem :
      (server : Server) (rest : List Artifact) (s : Spool)
      → ((k : String) (b : Artifact) → lookup k s.artifacts ≡ some b → awaits rest k b ≡ true)
      → (k : String) (b : Artifact)
      → lookup k (deliver_all lib server now rest s).0.artifacts ≡ some b
      → is_due now b ≡ false
  unfolding deliver_all any
  deliver_all_lem server [] s v k b h = ground (arith, v k b h)
  deliver_all_lem server (a ∷ rest) s v k b h =
      let u = upload lib server a s in
      deliver_all_lem server rest (settle lib now a u s)
        (λ j c e. elim (settle_lem a u s j c e) [
          | inl quiet ↦ ground (arith, quiet)
          | inr (other, before) ↦ ground (arith, v j c before, other)
        ])
        k b h

  -- The manifests that are due, among the entries of the directory.
  abbrev is_entry : String → String × Artifact → Bool
  is_entry k e = is_due now e.1 && str_eq k (lib.path_name e.1.artifact_id)

  has-select :
      (k : String) (l : List (String × Artifact))
      → has k (map (λ a. lib.path_name a.artifact_id) (select (is_due now) (map (λ e. e.1) l)))
        ≡ any (is_entry k) l
  unfolding any select
  has-select k [] = refl
  has-select k (e ∷ l) = ground (arith, has-select k l)

  lookup-any :
      (k : String) (d : Dict Artifact) (b : Artifact)
      → lookup k d ≡ some b
      → is_due now b ≡ true
      → k ≡ lib.path_name b.artifact_id
      → any (is_entry k) d ≡ true
  unfolding any lookup
  lookup-any k [] b e t n = absurd (ground (arith, e))
  lookup-any k ((j, a) ∷ d) b e t n =
      ground (arith, e, t, n, lookup-any k d b, eq_iff k (lib.path_name b.artifact_id))

  -- A round of the pipeline handles every artifact that is due, whatever the server does: after it,
  -- none is due at the moment of the round.
  pub run_once-is_due :
      (server : Server) (dirs : Directories) (s : Spool) (k : String) (b : Artifact)
      → IsStored lib s
      → lookup k (run_once lib server dirs now s).0.artifacts ≡ some b
      → is_due now b ≡ false
  unfolding run_once due manifests
  run_once-is_due server dirs s k b v =
      let t = (scan_once lib dirs s).0 in
      let w = scan_once-IsStored lib dirs s v in
      deliver_all_lem server (due now t) t
        (λ j c e. elim (Bool-cases (is_due now c)) [
          | inr quiet ↦ ground (arith, quiet)
          | inl ready ↦ ground (
            arith,
            ready,
            lookup-any j t.artifacts c e ready (w.name j c e),
            has-select j (order_by (λ x. x.0) t.artifacts),
            any-order_by (is_entry j) (λ x. x.0) t.artifacts,
          )
        ])
        k b
