-- ===== src/Spool/Life.antt =====
-- The life of the spool: its operations in any order.
use pitlane_agent.Common.{
  ℕ, String, ◌≡◌, refl, inl, inr, some, false, List, arith, Option-cases, Bool-cases,
}
use pitlane_agent.Common.Int.{ℤ}
use pitlane_agent.Common.Json.{Fields, get, as_object}
use pitlane_agent.Common.Dict.{lookup}
use pitlane_agent.Spool.Types.{Library, purged, status_eq, Artifact, Spool}
use pitlane_agent.Spool.Deliveries.{
  artifact, update_artifact, mark_delivered, mark_failed, mark_notified, set_delivered, set_failed,
  Scope, add_text,
}
use pitlane_agent.Spool.Purge.{Order, purge_delivered}
use pitlane_agent.Spool.Scans.{Directories, scan_once, launch_name}
use pitlane_agent.Spool.Launches.{
  close_result_window, register_named, register_launch, resync, Request, request_of, is_not_false,
  is_incomplete,
}
use pitlane_agent.Spool.Stored.{
  IsStored, update-IsStored, scan_once-IsStored, close-IsStored, same-IsStored,
}
use pitlane_agent.Spool.Purges.{resync-IsStored, purge-IsStored}

-- One operation. A delivery or a failure is marked on an artifact that is not purged: the pipeline
-- uploads pending ones.
pub data Step (lib : Library) (s : Spool) : Spool → Type 0 where
  by_register :
      (dirs : Directories) (now : ℕ) (instance : String) (launch_id : ℕ) (config : Fields)
      → Step lib s (register_launch lib dirs now instance launch_id config s).0
  by_scan : (dirs : Directories) → Step lib s (scan_once lib dirs s).0
  by_close :
      (dirs : Directories) (now : ℕ) (instance : String)
      → Step lib s (close_result_window lib dirs now instance s)
  by_delivery :
      (now : ℕ) (id : String) (status : ℤ) (a : Artifact)
      → artifact lib id s ≡ some a
      → status_eq a.status purged ≡ false
      → Step lib s (mark_delivered lib now id status s)
  by_failure :
      (now : ℕ) (id error : String) (a : Artifact)
      → artifact lib id s ≡ some a
      → status_eq a.status purged ≡ false
      → Step lib s (mark_failed lib now id error s)
  by_notification : (id hub : String) → Step lib s (mark_notified lib id hub s)
  by_resync : (dirs : Directories) (f : Scope) → Step lib s (resync lib dirs f s).0
  by_purge : (o : Order) (ids : List String) → Step lib s (purge_delivered lib o ids s).0

pub data Reach (lib : Library) (s : Spool) : Spool → Type 0 where
  here : Reach lib s s
  next : {t u : Spool} → Reach lib s t → Step lib t u → Reach lib s u

module _ (lib : Library) where
  register_named-IsStored :
      (dirs : Directories) (now : ℕ) (instance : String) (launch_id : ℕ) (q : Request)
      (name : String) (s : Spool)
      → IsStored lib s
      → IsStored lib (register_named lib dirs now instance launch_id q name s).0
  unfolding register_named
  register_named-IsStored dirs now instance launch_id q name s v =
      elim (Option-cases (lookup name s.launches)) [
        | inl n ↦
            rw (n, register_named)
              (same-IsStored lib {s = close_result_window lib dirs now instance s} refl refl
                (close-IsStored lib dirs now instance s v))
        | inr (l, p) ↦ rw (p, register_named) v
      ]

  register-IsStored :
      (dirs : Directories) (now : ℕ) (instance : String) (launch_id : ℕ) (config : Fields)
      (s : Spool)
      → IsStored lib s
      → IsStored lib (register_launch lib dirs now instance launch_id config s).0
  unfolding register_launch
  register-IsStored dirs now instance launch_id config s v =
      elim (Option-cases (as_object (get config "Server"))) [
        | inl n ↦ rw (n, register_launch) v
        | inr (server, p) ↦ elim (Bool-cases (is_not_false (get server "CollectResults"))) [
          | inr off ↦ rw (p, off, register_launch) (close-IsStored lib dirs now instance s v)
          | inl on ↦ elim (Bool-cases (is_incomplete launch_id (request_of lib server))) [
            | inl bad ↦ rw (p, on, bad, register_launch) v
            | inr good ↦
                elim (Option-cases
                  (launch_name lib launch_id (request_of lib server).correlation_id)) [
                    | inl n ↦ rw (p, on, good, n, register_launch) v
                    | inr (name, e) ↦
                        rw (p, on, good, e, register_launch)
                          (register_named-IsStored dirs now instance launch_id
                            (request_of lib server) name s v)
                  ]
          ]
        ]
      ]

  -- A mark on an artifact that is not purged.
  mark-IsStored :
      (id : String) (f : Artifact → Artifact) (s : Spool) (a : Artifact)
      → ((b : Artifact) → (f b).artifact_id ≡ b.artifact_id)
      → artifact lib id s ≡ some a
      → status_eq a.status purged ≡ false
      → IsStored lib s
      → IsStored lib (update_artifact lib id f s)
  mark-IsStored id f s a same e live v =
      update-IsStored lib id f s same (λ b q dead. absurd (ground (arith, q, e, live, dead))) v

  Step-IsStored : {s t : Spool} → IsStored lib s → Step lib s t → IsStored lib t
  unfolding mark_delivered mark_failed mark_notified resync
  Step-IsStored {s = s} v (by_register dirs now instance launch_id config) =
      register-IsStored dirs now instance launch_id config s v
  Step-IsStored {s = s} v (by_scan dirs) = scan_once-IsStored lib dirs s v
  Step-IsStored {s = s} v (by_close dirs now instance) = close-IsStored lib dirs now instance s v
  Step-IsStored {s = s} v (by_delivery now id status a e live) =
      mark-IsStored id (set_delivered (lib.utc_iso now) status) s a (λ b. refl) e live v
  Step-IsStored {s = s} v (by_failure now id error a e live) =
      mark-IsStored id (set_failed error now) s a (λ b. refl) e live v
  Step-IsStored {s = s} v (by_notification id hub) =
      update-IsStored lib id (λ a. record a { notified_hubs = add_text hub a.notified_hubs }) s
        (λ b. refl) (λ b e d. d) v
  Step-IsStored {s = s} v (by_resync dirs f) =
      resync-IsStored lib f (scan_once lib dirs s).0 (scan_once-IsStored lib dirs s v)
  Step-IsStored {s = s} v (by_purge o ids) = purge-IsStored lib o ids s v

  -- Whatever launches are registered and scanned and whatever is delivered, retried, put back,
  -- notified and purged, in any order: every manifest is in the file of its artifact's name, and every
  -- artifact that is not purged keeps the copy of its result.
  pub Reach-IsStored : {s t : Spool} → IsStored lib s → Reach lib s t → IsStored lib t
  Reach-IsStored v here = v
  Reach-IsStored v (next r step) = Step-IsStored (Reach-IsStored v r) step
