-- ===== src/Input/Registry/Scans.antt =====
-- The files that are registered after an opening, and after a scan.
use mathlib.Core.List.{append_assoc}
use nexus_kvm.Base.{
  ℕ, Bool, zero, suc, ◌+◌, ◌≡◌, ◌≢◌, refl, sym, subst, ap, ◌∙◌, All, NoRepeat, ◌||◌, true, false,
  Option, none, some, List, [], ◌∷◌, ◌++◌, arith, Bool-cases, inl, inr, holds, Result, ok, err,
}
use nexus_kvm.Input.Registry.{
  Entry, entry_dec, Registry, is_in, release, OpenError, not_appliable, io, GrabEnd, grabbed,
  held_by_other, grab_failed, Node, Handles, with_writer, with_grab, with_axes, with_reader,
  with_file, with_device, open_node, after_attempt, attempts, try_open, Found, event_node,
  other_entry, entry_error, dropped, after_node, scan,
}

-- What an opening leaves: two new entries, or the registry as it was.
abbrev pub Opened : Registry → Registry × Option Handles → Type 0
Opened before (entries, none) = entries ≡ before
Opened before (entries, some h) =
    (entries ≡ h.writer ∷ h.reader ∷ before)
    × (is_in h.reader before ≡ false)
    × (is_in h.writer (h.reader ∷ before) ≡ false)

abbrev pub handles_of : Result Handles OpenError → Option Handles
handles_of (ok h) = some h
handles_of (err e) = none

abbrev pub found : Result (Option Handles) OpenError → Option Handles
found (ok h) = h
found (err e) = none

-- The registry after an opening that stops, and the two entries after one that does not.
abbrev Ends : Registry → Registry × Result Handles OpenError → Type 0
Ends before o = Opened before (o.0, handles_of o.1)

release-absent :
    (e : Entry) (entries : Registry) → is_in e entries ≡ false → release e entries ≡ entries
unfolding release is_in
release-absent e [] h = refl
release-absent e (x ∷ entries) h = ground (arith, release-absent e entries)

entry_dec_self : (e : Entry) → holds (entry_dec e e) ≡ true
entry_dec_self e = elim (entry_dec e e) as (λ d. holds d ≡ true) [
  | yes same ↦ refl
  | no other ↦ absurd (other refl)
]

release-register :
    (e : Entry) (entries : Registry) → is_in e entries ≡ false → release e (e ∷ entries) ≡ entries
unfolding release
release-register e entries h = rw (entry_dec_self e) (release-absent e entries h)

module _ (before : Registry) (reader : Entry) (new : is_in reader before ≡ false) where
  with_writer-Opened :
      (w : Result Entry OpenError) → Ends before (with_writer (reader ∷ before) reader w)
  unfolding with_writer
  with_writer-Opened (err e) = release-register reader before new
  with_writer-Opened (ok writer) = elim (Bool-cases (is_in writer (reader ∷ before))) [
    | inl there ↦ rw there (release-register reader before new)
    | inr absent ↦ rw absent (refl, new, absent)
  ]

  with_grab-Opened :
      (g : GrabEnd) (w : Result Entry OpenError)
      → Ends before (with_grab (reader ∷ before) reader g w)
  unfolding with_grab
  with_grab-Opened grabbed w = with_writer-Opened w
  with_grab-Opened held_by_other w = release-register reader before new
  with_grab-Opened (grab_failed e) w = release-register reader before new

  with_axes-Opened :
      (node : Node) (d : Result (Unit {0}) OpenError)
      → Ends before (with_axes (reader ∷ before) reader node d)
  unfolding with_axes
  with_axes-Opened node (err e) = release-register reader before new
  with_axes-Opened node (ok done) = with_grab-Opened node.grab node.writer

  with_reader-Opened :
      (node : Node) → Ends before (with_reader before reader node (some (reader ∷ before)))
  unfolding with_reader
  with_reader-Opened node = elim (Bool-cases node.has_switches) [
    | inl has ↦ rw has (release-register reader before new)
    | inr lacks ↦ rw lacks (with_axes-Opened node node.disabled)
  ]

with_file-Opened :
    (before : Registry) (node : Node) (f : Result Entry OpenError)
    → Ends before (with_file before node f)
unfolding with_file
with_file-Opened before node (err e) = refl
with_file-Opened before node (ok reader) = elim (Bool-cases (is_in reader before)) [
  | inl there ↦ rw there refl
  | inr absent ↦ rw absent (with_reader-Opened before reader absent node)
]

with_device-Opened :
    (before : Registry) (node : Node) (d : Result (Unit {0}) OpenError)
    → Ends before (with_device before node d)
unfolding with_device
with_device-Opened before node (err e) = refl
with_device-Opened before node (ok done) = elim (Bool-cases node.is_virtual) [
  | inl virtual ↦ rw virtual refl
  | inr real ↦ rw real (with_file-Opened before node node.file)
]

-- Opening a device registers two files that are new, its own and that of its virtual copy; where it
-- stops with an error, at any step, the registry is as it was.
pub open_node-Opened :
    (before : Registry) (node : Node)
    → Opened before ((open_node before node).0, handles_of (open_node before node).1)
unfolding open_node
open_node-Opened before node = with_device-Opened before node node.opens

attempts-Opened :
    (left attempt : ℕ) (node : ℕ → Node) (before : Registry)
    → let o = attempts left attempt node before in Opened before (o.0, found o.1)
unfolding attempts
attempts-Opened zero attempt node before = refl
attempts-Opened (suc left) attempt node before =
    tried (open_node before (node attempt)) (open_node-Opened before (node attempt))
      (attempts-Opened left (attempt + 1) node)
  where
    tried :
        (o : Registry × Result Handles OpenError)
        → Opened before (o.0, handles_of o.1)
        → ((r : Registry) → let o = attempts left (attempt + 1) node r in Opened r (o.0, found o.1))
        → let o = after_attempt (attempts left (attempt + 1) node) o in
          Opened before (o.0, found o.1)
    tried (entries, ok h) opened ih = opened
    tried (entries, err not_appliable) opened ih = opened
    tried (entries, err (io false e)) opened ih = opened
    tried (entries, err (io true e)) opened ih =
        subst (λ r. let o = attempts left (attempt + 1) node entries in Opened r (o.0, found o.1))
          opened (ih entries)

-- The files of interceptors, the last first.
abbrev pub files : List Handles → Registry
files [] = []
files (h ∷ handles) = files handles ++ h.writer ∷ h.reader ∷ []

is_in-All : (e : Entry) (entries : Registry) → is_in e entries ≡ false → All (λ x. x ≢ e) entries
unfolding is_in
is_in-All e [] h = tt
is_in-All e (x ∷ entries) h =
    elim (entry_dec x e)
        as (λ d. (holds d || is_in e entries) ≡ false → (x ≢ e) × All (λ x. x ≢ e) entries) [
          | yes same ↦ λ f. cc
          | no other ↦ λ f. (other, is_in-All e entries f)
        ]
      h

Opened-NoRepeat :
    (before after : Registry) (o : Option Handles)
    → NoRepeat before
    → Opened before (after, o)
    → NoRepeat after
Opened-NoRepeat before after none distinct same = subst NoRepeat (sym same) distinct
Opened-NoRepeat before after (some h) distinct (same, reader, writer) =
    let written : All (λ x. x ≢ h.writer) (h.reader ∷ before) =
      is_in-All h.writer (h.reader ∷ before) writer in
    let read : All (λ x. x ≢ h.reader) before = is_in-All h.reader before reader in
    subst NoRepeat (sym same) (written, (read, distinct))

-- The interceptor that nobody takes leaves the registry as it was before it was opened.
dropped-Opened :
    (before after : Registry) (h : Handles)
    → Opened before (after, some h)
    → dropped h after ≡ before
unfolding dropped
dropped-Opened before after h (same, read, written) =
    ap (λ l. release h.reader (release h.writer l)) same
    ∙ ap (release h.reader) (release-register h.writer (h.reader ∷ before) written)
    ∙ release-register h.reader before read

scanned :
    (takes : Bool) (before after : Registry) (o : Result (Option Handles) OpenError)
    (later : Registry × List Handles)
    → Opened before (after, found o)
    → later.0 ≡ files later.1 ++ after
    → let r = after_node takes (after, o) later in r.0 ≡ files r.1 ++ before
unfolding after_node
scanned true before after (ok none) later same e = e ∙ ap (λ l. files later.1 ++ l) same
scanned false before after (ok none) later same e = e ∙ ap (λ l. files later.1 ++ l) same
scanned true before after (err problem) later same e = e ∙ ap (λ l. files later.1 ++ l) same
scanned false before after (err problem) later same e = e ∙ ap (λ l. files later.1 ++ l) same
scanned true before after (ok (some h)) later (same, read, written) e =
    e
    ∙ ap (λ l. files later.1 ++ l) same
    ∙ sym (append_assoc (files later.1) (h.writer ∷ h.reader ∷ []) before)
scanned false before after (ok (some h)) later opened e = dropped-Opened before after h opened

distinct_after :
    (takes : Bool) (before after : Registry) (o : Result (Option Handles) OpenError)
    (later : Registry × List Handles)
    → Opened before (after, found o)
    → NoRepeat before
    → NoRepeat later.0
    → NoRepeat (after_node takes (after, o) later).0
unfolding after_node
distinct_after true before after (ok none) later opened first last = last
distinct_after false before after (ok none) later opened first last = last
distinct_after true before after (err problem) later opened first last = last
distinct_after false before after (err problem) later opened first last = last
distinct_after true before after (ok (some h)) later opened first last = last
distinct_after false before after (ok (some h)) later opened first last =
    subst NoRepeat (sym (dropped-Opened before after h opened)) first

scan_registered :
    (nodes : List Found) (before : Registry)
    → NoRepeat before
    → ((scan nodes before).0 ≡ files (scan nodes before).1 ++ before)
      × NoRepeat (scan nodes before).0
unfolding scan
scan_registered [] before distinct = (refl, distinct)
scan_registered (entry_error ∷ nodes) before distinct = (refl, distinct)
scan_registered (other_entry ∷ nodes) before distinct = scan_registered nodes before distinct
scan_registered (event_node node takes ∷ nodes) before distinct =
    let o = try_open node before in
    let opened = attempts-Opened 8 0 node before in
    let ih = scan_registered nodes o.0 (Opened-NoRepeat before o.0 (found o.1) distinct opened) in
    (
      scanned takes before o.0 o.1 (scan nodes o.0) opened ih.0,
      distinct_after takes before o.0 o.1 (scan nodes o.0) opened distinct ih.1,
    )

-- Neither an error of the directory, nor a node whose interceptor nobody would take.
abbrev pub GoesOn : Found → Type 0
GoesOn (event_node node takes) = takes ≡ true
GoesOn other_entry = Unit
GoesOn entry_error = ⊥

-- One scan, and behind it another one.
abbrev pub and_then : Registry × List Handles → List Found → Registry × List Handles
and_then (entries, sent) nodes = let later = scan nodes entries in (later.0, sent ++ later.1)

after_node-then :
    (o : Registry × Result (Option Handles) OpenError) (later : Registry × List Handles)
    (back : List Found)
    → after_node true o (and_then later back) ≡ and_then (after_node true o later) back
unfolding after_node
after_node-then (entries, ok none) later back = refl
after_node-then (entries, ok (some h)) later back = refl
after_node-then (entries, err problem) later back = refl

scan-then :
    (front back : List Found) (before : Registry)
    → All GoesOn front
    → scan (front ++ back) before ≡ and_then (scan front before) back
unfolding scan
scan-then [] back before goes = refl
scan-then (entry_error ∷ front) back before goes = absurd goes.0
scan-then (other_entry ∷ front) back before goes = scan-then front back before goes.1
scan-then (event_node node takes ∷ front) back before goes =
    let o = try_open node before in
    rw goes.0 (
      ap (after_node true o) (scan-then front back o.0 goes.1)
      ∙ after_node-then o (scan front o.0) back)

-- A scan leaves in the registry the files of exactly the interceptors that it sent, in front of what it
-- held, and no file stands twice: no device is intercepted twice, and no virtual copy is intercepted.
-- However nodes fail, the scan goes on behind them as a scan of the nodes that are left, as long as the
-- directory can be read and the monitor takes interceptors.
pub scan-files :
    (front back : List Found) (before : Registry)
    → NoRepeat before
    → let r = scan (front ++ back) before in
      (r.0 ≡ files r.1 ++ before)
      × NoRepeat r.0
      × (All GoesOn front → r ≡ and_then (scan front before) back)
scan-files front back before distinct =
    let whole = scan_registered (front ++ back) before distinct in
    (whole.0, whole.1, scan-then front back before)
