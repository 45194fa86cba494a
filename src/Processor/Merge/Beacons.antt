-- ===== src/Processor/Merge/Beacons.antt =====
-- The position of a stored drone under WiFi-only beacons, internal/processor/state.go: the 60 s rule of
-- UpdateDrone and mergeIntoExisting.
use skylens_azure.Common.{
  ℕ, ltb, any, ◌≢◌, ◌+◌, ◌≡◌, ◌≤◌, refl, sym, subst, ◌∙◌, Bool, true, false, arith, inl, inr,
  Bool-cases, if◌then◌else◌, List, [], ◌∷◌, All,
}
unfoldable use skylens_azure.Common.{bytes_discrete}
use skylens_azure.Common.Int.{pos, is_zero}
use skylens_azure.Processor.Model.{Drone}
use skylens_azure.Processor.Merge.{
  Fix, fix, is_wifi_only, gps_stale, was_lost, touch, update_latitude, update_position,
  update_motion, update_operator, update_names, merge_names, update_telemetry, update_existing,
  merge_into_existing,
}

abbrev pub no_position : Fix → Fix
no_position f = record f { latitude = pos 0; longitude = pos 0 }

-- What a beacon leaves of a fix: a drone that was lost has the clock set again, a drone in contact
-- loses a fix that is too old, and a drone without a fix has none to lose.
abbrev pub after_beacon : ℕ → Bool → Fix → Fix
after_beacon now returned f =
    if is_zero f.latitude
    then f
    else if returned
    then record f { last_gps_time = now }
    else if gps_stale now f.last_gps_time
    then no_position f
    else f

is_wifi_only-parts :
    (d : Drone)
    → is_wifi_only d ≡ true
    → (is_zero d.latitude ≡ true) × (is_zero d.longitude ≡ true) × (is_zero d.rssi ≡ false)
unfolding is_wifi_only
is_wifi_only-parts d w = elim (Bool-cases (is_zero d.latitude)) [
  | inr a ↦ absurd (ground arith)
  | inl a ↦ elim (Bool-cases (is_zero d.longitude)) [
    | inr b ↦ absurd (ground arith)
    | inl b ↦ elim (Bool-cases (is_zero d.rssi)) [
      | inl c ↦ absurd (ground arith)
      | inr c ↦ (a, b, c)
    ]
  ]
]

update_latitude-beacon :
    (now : ℕ) (returned : Bool) (d : Drone) (f : Fix)
    → is_wifi_only d ≡ true
    → update_latitude now returned d f ≡ after_beacon now returned f
unfolding update_latitude
update_latitude-beacon now returned d f w =
    let (a, b, c) = is_wifi_only-parts d w in
    elim (Bool-cases (is_zero f.latitude)) [
      | inl z ↦ rw (a, b, c, z) refl
      | inr z ↦ rw (a, b, c, z) refl
    ]

fix-update_position :
    (now : ℕ) (returned : Bool) (d e : Drone)
    → is_wifi_only d ≡ true
    → fix (update_position now returned d e) ≡ after_beacon now returned (fix e)
unfolding update_position
fix-update_position now returned d e w =
    let (a, b, c) = is_wifi_only-parts d w in
    let same_fix : fix (update_position now returned d e) ≡ update_latitude now returned d (fix e) =
      rw b refl in
    same_fix ∙ update_latitude-beacon now returned d (fix e) w

fix-update_telemetry :
    (now : ℕ) (d e : Drone)
    → is_wifi_only d ≡ true
    → fix (update_telemetry now d e) ≡ after_beacon now (was_lost e) (fix e)
unfolding update_telemetry update_motion update_operator
fix-update_telemetry now d e w = fix-update_position now (was_lost e) d (touch now e) w

-- A detection and its time, and whether it was found by its serial number or MAC, or by its identifier.
pub record Report : Type 0 where
  pub now : ℕ
  pub detection : Drone
  pub merged : Bool

abbrev pub receive : Report → Drone → Drone
receive r e =
    if r.merged
    then merge_into_existing r.now r.detection e
    else update_existing r.now r.detection e

fix-receive :
    (r : Report) (e : Drone)
    → is_wifi_only r.detection ≡ true
    → fix (receive r e) ≡ after_beacon r.now (was_lost e) (fix e)
unfolding update_existing merge_into_existing update_names merge_names
fix-receive r e w = elim (Bool-cases r.merged) [
  | inl m ↦ rw m (fix-update_telemetry r.now r.detection e w)
  | inr m ↦ rw m (fix-update_telemetry r.now r.detection e w)
]

abbrev pub receive_all : List Report → Drone → Drone
receive_all [] e = e
receive_all (r ∷ rs) e = receive_all rs (receive r e)

-- A beacon that comes at most 60 s after the time of the last fix.
abbrev pub IsTimely : ℕ → Report → Type 0
IsTimely last r = (is_wifi_only r.detection ≡ true) × (r.now ≤ last + 60_000_000_000)

contact-receive : (r : Report) (e : Drone) → was_lost (receive r e) ≡ false
unfolding was_lost update_existing merge_into_existing update_names merge_names update_telemetry
    update_position update_motion update_operator bytes_discrete
contact-receive r e = elim (Bool-cases r.merged) [ inl m ↦ rw m refl | inr m ↦ rw m refl ]

in_time : (now last : ℕ) → now ≤ last + 60_000_000_000 → gps_stale now last ≡ false
unfolding gps_stale
in_time now last le = ground arith

timely-receive :
    (r : Report) (e : Drone)
    → was_lost e ≡ false
    → IsTimely e.last_gps_time r
    → fix (receive r e) ≡ fix e
timely-receive r e l (w, le) =
    fix-receive r e w
    ∙ rw (l, in_time r.now e.last_gps_time le)
        (elim (Bool-cases (is_zero e.latitude)) [ inl z ↦ rw z refl | inr z ↦ rw z refl ])

-- A drone in contact keeps its position and its GPS time under any number of WiFi-only beacons that come
-- at most 60 s after that time, in any order and through either update.
pub beacons-keep_position :
    (rs : List Report) (e : Drone)
    → was_lost e ≡ false
    → All (IsTimely e.last_gps_time) rs
    → fix (receive_all rs e) ≡ fix e
beacons-keep_position [] e l h = refl
beacons-keep_position (r ∷ rs) e l (t, h) =
    let kept = timely-receive r e l t in
    beacons-keep_position rs (receive r e) (contact-receive r e)
      (subst (λ f. All (IsTimely f.last_gps_time) rs) (sym kept) h)
    ∙ kept

-- The beacon comes later than 60 s after a time.
abbrev pub is_late : ℕ → Report → Bool
is_late last r = ltb (last + 60_000_000_000) r.now

abbrev pub IsBeacon : Report → Type 0
IsBeacon r = is_wifi_only r.detection ≡ true

without_position :
    (rs : List Report) (e : Drone)
    → was_lost e ≡ false
    → is_zero (fix e).latitude ≡ true
    → All IsBeacon rs
    → fix (receive_all rs e) ≡ fix e
without_position [] e l z h = refl
without_position (r ∷ rs) e l z (w, h) =
    let kept : fix (receive r e) ≡ fix e = fix-receive r e w ∙ rw z refl in
    without_position rs (receive r e) (contact-receive r e)
      (subst (λ f. is_zero f.latitude ≡ true) (sym kept) z) h
    ∙ kept

late-gps_stale : (now last : ℕ) → last ≢ 0 → gps_stale now last ≡ ltb (last + 60_000_000_000) now
unfolding gps_stale
late-gps_stale now last n = ground (arith, n)

-- A drone in contact that has a position and a GPS time, and that only WiFi-only beacons report, in any
-- order and through either update, loses its position, both coordinates of which become 0, exactly when
-- some beacon comes more than 60 s after the GPS time, and keeps the GPS time in any case.
pub fix-receive_all :
    (rs : List Report) (e : Drone)
    → was_lost e ≡ false
    → is_zero (fix e).latitude ≡ false
    → (fix e).last_gps_time ≢ 0
    → All IsBeacon rs
    → fix (receive_all rs e)
      ≡ (if any (is_late (fix e).last_gps_time) rs then no_position (fix e) else fix e)
fix-receive_all [] e l z n h = refl
fix-receive_all (r ∷ rs) e l z n (w, h) =
    let rest = receive r e in
    let first : fix rest
        ≡ (if is_late (fix e).last_gps_time r then no_position (fix e) else fix e) =
      fix-receive r e w ∙ rw (z, l, late-gps_stale r.now e.last_gps_time n) refl in
    elim (Bool-cases (is_late (fix e).last_gps_time r)) [
      | inl late ↦
          let gone : fix rest ≡ no_position (fix e) = first ∙ rw late refl in
          without_position rs rest (contact-receive r e)
            (subst (λ f. is_zero f.latitude ≡ true) (sym gone) refl) h
          ∙ gone
          ∙ rw late refl
      | inr soon ↦
          let kept : fix rest ≡ fix e = first ∙ rw soon refl in
          fix-receive_all rs rest (contact-receive r e)
            (subst (λ f. is_zero f.latitude ≡ false) (sym kept) z)
            (subst (λ f. f.last_gps_time ≢ 0) (sym kept) n) h
          ∙ subst
              (λ f. (if any (is_late f.last_gps_time) rs then no_position f else f) ≡ (
                if any (is_late (fix e).last_gps_time) (r ∷ rs)
                then no_position (fix e)
                else fix e))
              (sym kept) (rw soon refl)
    ]
