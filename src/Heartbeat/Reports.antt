-- ===== src/Heartbeat/Reports.antt =====
-- Which nodes monitor.go reports, and how often.
use iicpc.Prelude.{
  ℕ, ◌+◌, ◌≡◌, refl, Bool, false, Option, none, some, List, [], ◌∷◌, String, str_eq, eq_iff, arith,
  ltb, if◌then◌else◌, count, any, count-append, inl, inr, Bool-cases, subst, ◌∙◌,
}
use iicpc.Prelude.Map.{get, IsMap, get-put, get-remove_all, put-IsMap, remove_all-IsMap}
use iicpc.Heartbeat.{
  Monitor, new_monitor, record_heartbeat, threshold, failed_nodes, check_heartbeats, Event, beats,
  ticks, handle, run,
}

-- How often a node is reported.
abbrev pub reports : String → List String → ℕ
reports node failed = count (λ k. str_eq k node) failed

abbrev pub is_beat_of : String → Event → Bool
is_beat_of node (beats k now) = str_eq k node
is_beat_of node (ticks now) = false

abbrev pub is_tick_after : ℕ → Event → Bool
is_tick_after t (beats k now) = false
is_tick_after t (ticks now) = ltb t now

-- 1 for a node that was seen and has been silent for too long.
abbrev overdue : ℕ → ℕ → Option ℕ → ℕ
overdue limit now none = 0
overdue limit now (some t) = if ltb (t + limit) now then 1 else 0

abbrev tracked : Option ℕ → ℕ
tracked none = 0
tracked (some t) = 1

-- One check reports a node once if it is overdue, and not at all otherwise.
reports-failed_nodes :
    (limit now : ℕ) (node : String) (seen : List (String × ℕ))
    → IsMap seen
    → reports node (failed_nodes limit now seen) ≡ overdue limit now (get seen node)
unfolding failed_nodes get
reports-failed_nodes limit now node [] h = refl
reports-failed_nodes limit now node (e ∷ seen) h =
    let rest = reports-failed_nodes limit now node seen h.1 in
    elim (Bool-cases (str_eq e.0 node)) [
      | inr other ↦ ground (arith, rest)
      | inl same ↦
          let fresh : get seen node ≡ none =
            subst (λ k. get seen k ≡ none) ((eq_iff e.0 node).0 same) h.0 in
          ground (arith, rest)
    ]

handle-IsMap : (m : Monitor) (e : Event) → IsMap m.last_seen → IsMap (handle m e).0.last_seen
unfolding handle record_heartbeat check_heartbeats
handle-IsMap m (beats k now) h = put-IsMap m.last_seen k now h
handle-IsMap m (ticks now) h =
    remove_all-IsMap m.last_seen (failed_nodes (threshold m) now m.last_seen) h

run-IsMap : (m : Monitor) (es : List Event) → IsMap m.last_seen → IsMap (run m es).0.last_seen
unfolding run
run-IsMap m [] h = h
run-IsMap m (e ∷ es) h = run-IsMap (handle m e).0 es (handle-IsMap m e h)

any-reports :
    (node : String) (ks : List String) → any (λ k. str_eq k node) ks ≡ ltb 0 (reports node ks)
any-reports node [] = refl
any-reports node (k ∷ ks) = ground (arith, any-reports node ks)

-- Nothing changes the threshold.
threshold-handle : (m : Monitor) (e : Event) → threshold (handle m e).0 ≡ threshold m
unfolding handle record_heartbeat check_heartbeats threshold
threshold-handle m (beats k now) = refl
threshold-handle m (ticks now) = refl

get-tick :
    (m : Monitor) (node : String) (now : ℕ)
    → IsMap m.last_seen
    → get (handle m (ticks now)).0.last_seen node ≡ (
        if ltb 0 (overdue (threshold m) now (get m.last_seen node))
        then none
        else get m.last_seen node)
unfolding handle check_heartbeats
get-tick m node now h =
    let failed : List String = failed_nodes (threshold m) now m.last_seen in
    ground (
      arith,
      get-remove_all m.last_seen failed node,
      any-reports node failed,
      reports-failed_nodes (threshold m) now node m.last_seen h,
    )

reports-tick :
    (m : Monitor) (node : String) (now : ℕ)
    → IsMap m.last_seen
    → reports node (handle m (ticks now)).1 ≡ overdue (threshold m) now (get m.last_seen node)
unfolding handle check_heartbeats
reports-tick m node now h = reports-failed_nodes (threshold m) now node m.last_seen h

get-beat :
    (m : Monitor) (k node : String) (now : ℕ)
    → get (handle m (beats k now)).0.last_seen node
      ≡ (if str_eq k node then some now else get m.last_seen node)
unfolding handle record_heartbeat
get-beat m k node now = get-put m.last_seen k node now

no_report : (m : Monitor) (k node : String) (now : ℕ) → reports node (handle m (beats k now)).1 ≡ 0
unfolding handle
no_report m k node now = refl

-- A node that is not tracked and sends nothing is never reported.
reports-untracked :
    (m : Monitor) (node : String) (es : List Event)
    → IsMap m.last_seen
    → get m.last_seen node ≡ none
    → any (is_beat_of node) es ≡ false
    → reports node (run m es).1 ≡ 0
unfolding run
reports-untracked m node [] h out quiet = refl
reports-untracked m node (beats k now ∷ es) h out quiet = ground (
  arith,
  count-append (λ k. str_eq k node) (handle m (beats k now)).1
      (run (handle m (beats k now)).0 es).1,
  no_report m k node now,
  reports-untracked (handle m (beats k now)).0 node es (handle-IsMap m (beats k now) h),
  get-beat m k node now,
)
reports-untracked m node (ticks now ∷ es) h out quiet = ground (
  arith,
  count-append (λ k. str_eq k node) (handle m (ticks now)).1 (run (handle m (ticks now)).0 es).1,
  reports-tick m node now h,
  reports-untracked (handle m (ticks now)).0 node es (handle-IsMap m (ticks now) h),
  get-tick m node now h,
)

reports-silent :
    (m : Monitor) (node : String) (t : ℕ) (es : List Event)
    → IsMap m.last_seen
    → get m.last_seen node ≡ some t
    → any (is_beat_of node) es ≡ false
    → reports node (run m es).1 ≡ (if any (is_tick_after (t + threshold m)) es then 1 else 0)
unfolding run
reports-silent m node t [] h seen quiet = refl
reports-silent m node t (beats k now ∷ es) h seen quiet = ground (
  arith,
  count-append (λ k. str_eq k node) (handle m (beats k now)).1
      (run (handle m (beats k now)).0 es).1,
  no_report m k node now,
  threshold-handle m (beats k now),
  reports-silent (handle m (beats k now)).0 node t es (handle-IsMap m (beats k now) h),
  get-beat m k node now,
)
reports-silent m node t (ticks now ∷ es) h seen quiet = ground (
  arith,
  count-append (λ k. str_eq k node) (handle m (ticks now)).1 (run (handle m (ticks now)).0 es).1,
  reports-tick m node now h,
  threshold-handle m (ticks now),
  reports-silent (handle m (ticks now)).0 node t es (handle-IsMap m (ticks now) h),
  reports-untracked (handle m (ticks now)).0 node es (handle-IsMap m (ticks now) h),
  get-tick m node now h,
)

threshold-run : (m : Monitor) (es : List Event) → threshold (run m es).0 ≡ threshold m
unfolding run
threshold-run m [] = refl
threshold-run m (e ∷ es) = threshold-run (handle m e).0 es ∙ threshold-handle m e

-- Take a new monitor, any events, a heartbeat of a node at `t`, and then events in which the node
-- sends no heartbeat. Among these the node is reported exactly once if some tick comes more than 15
-- seconds after `t`, however many such ticks there are, and it is not reported otherwise.
pub silent-reported_once :
    (before after : List Event) (node : String) (t : ℕ)
    → any (is_beat_of node) after ≡ false
    → let m = record_heartbeat (run new_monitor before).0 node t in
      reports node (run m after).1
      ≡ (if any (is_tick_after (t + 15_000_000_000)) after then 1 else 0)
unfolding record_heartbeat handle threshold
silent-reported_once before after node t quiet =
    let m : Monitor = (run new_monitor before).0 in
    let same : threshold (record_heartbeat m node t) ≡ 15_000_000_000 =
      threshold-handle m (beats node t) ∙ threshold-run new_monitor before in
    subst
      (λ d.
        reports node (run (record_heartbeat m node t) after).1
        ≡ (if any (is_tick_after (t + d)) after then 1 else 0))
      same
      (reports-silent (record_heartbeat m node t) node t after
        (put-IsMap m.last_seen node t (run-IsMap new_monitor before tt))
        (ground (arith, get-put m.last_seen node node t, eq_iff node node)) quiet)
