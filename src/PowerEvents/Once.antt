-- ===== src/PowerEvents/Once.antt =====
-- One e-mail for a boot.
use codegraph_mcp.Base.{
  ==_refl, All, Bool-cases, Call, List, Option, Option-cases, Str, [], ap, arith, false, inl, inr,
  length, lstrip, ltb, nat_key, pair_key, raised, refl, returned, rstrip, some, str_key, strip,
  strip-strip, sym, true, ◌++◌, ◌+◌, ◌==◌, ◌∙◌, ◌∷◌, ◌≡◌, ◌≤◌, ◌⊎◌,
}
use codegraph_mcp.PowerEvents.{
  Start, boot_id_of, host_uptime, already_alerted_for_boot, mark_boot_alerted, power_event_window,
  check_and_notify_power_event, emails, marker_after,
}

-- A start in the boot `b`, with a marker that can be written
pub record InBoot (b : Str) (s : Start) : Type 0 where
  pub same : boot_id_of s ≡ b
  pub writes : s.write ≡ returned tt

-- The starts of the boots, one after the other
abbrev pub starts : List (Str × List Start) → List Start
starts [] = []
starts ((b, ss) ∷ boots) = ss ++ starts boots

strip-boot_id_of : (s : Start) → strip (boot_id_of s) ≡ boot_id_of s
unfolding boot_id_of strip rstrip lstrip
strip-boot_id_of s = go s.proc_boot_id
  where
    go :
        (p : Call Str)
        → strip (elim p [ raised e ↦ [] | returned b ↦ strip b ])
          ≡ (elim p [ raised e ↦ [] | returned b ↦ strip b ])
    go (raised e) = refl
    go (returned b) = strip-strip b

module _ (b : Str) (n : (b == []) ≡ false) where
  -- Once the marker names the boot, a start in it changes nothing.
  quiet_step :
      (s : Start) (text : Str)
      → InBoot b s
      → strip text ≡ b
      → check_and_notify_power_event s (some text) ≡ (some text, false)
  unfolding check_and_notify_power_event already_alerted_for_boot
  quiet_step s text i e = elim (Option-cases (host_uptime s)) [
    | inl u ↦ rw (check_and_notify_power_event, u) refl
    | inr (t, u) ↦ elim (Bool-cases (ltb power_event_window t)) [
      | inl w ↦ rw (check_and_notify_power_event, u, w) refl
      | inr w ↦ rw (check_and_notify_power_event, u, w, i.same, e, n, ==_refl b) refl
    ]
  ]

  quiet :
      (ss : List Start) (text : Str)
      → All (InBoot b) ss
      → strip text ≡ b
      → emails ss (some text) ≡ 0
  unfolding emails
  quiet [] text i e = refl
  quiet (s ∷ ss) text i e = rw (quiet_step s text i.0 e, quiet ss text i.1 e) refl

  -- A start in the boot leaves the marker and sends nothing, or names the boot in the marker and sends.
  step_cases :
      (s : Start) (marker : Option Str)
      → InBoot b s
      → (check_and_notify_power_event s marker ≡ (marker, false))
        ⊎ (check_and_notify_power_event s marker ≡ (some b, true))
  unfolding check_and_notify_power_event mark_boot_alerted
  step_cases s marker i = elim (Option-cases (host_uptime s)) [
    | inl u ↦ inl (rw (check_and_notify_power_event, u) refl)
    | inr (t, u) ↦ elim (Bool-cases (ltb power_event_window t)) [
      | inl w ↦ inl (rw (check_and_notify_power_event, u, w) refl)
      | inr w ↦ elim (Bool-cases (already_alerted_for_boot b marker)) [
        | inl a ↦ inl (rw (check_and_notify_power_event, u, w, i.same, n, a) refl)
        | inr a ↦ inr (rw (check_and_notify_power_event, u, w, i.same, n, a, i.writes) refl)
      ]
    ]
  ]

  boot_once : (ss : List Start) (marker : Option Str) → All (InBoot b) ss → emails ss marker ≤ 1
  unfolding emails
  boot_once [] marker i = omega arith
  boot_once (s ∷ ss) marker i = elim (step_cases s marker i.0) [
    | inl e ↦ ground (arith, e, boot_once ss marker i.1)
    | inr e ↦
        rw (e, quiet ss b i.1 (ap strip (sym i.0.same) ∙ strip-boot_id_of s ∙ i.0.same))
          (omega arith)
  ]

emails-append :
    (xs ys : List Start) (marker : Option Str)
    → emails (xs ++ ys) marker ≡ emails xs marker + emails ys (marker_after xs marker)
unfolding emails marker_after
emails-append [] ys marker = ground arith
emails-append (x ∷ xs) ys marker =
    ground (arith, emails-append xs ys (check_and_notify_power_event x marker).0)

-- Each boot has an id, and each start is one of its boot.
abbrev pub AreBoots : List (Str × List Start) → Type 0
AreBoots [] = Unit {0}
AreBoots ((b, ss) ∷ boots) = ((b == []) ≡ false) × (All (InBoot b) ss × AreBoots boots)

-- However often the backend starts in each boot of the host, and whatever the marker file holds at first, no more
-- e-mails are sent than there are boots, if each boot has an id and the marker can be written.
pub emails_bounded :
    (boots : List (Str × List Start)) (marker : Option Str)
    → AreBoots boots
    → emails (starts boots) marker ≤ length boots
unfolding emails
emails_bounded [] marker h = omega arith
emails_bounded ((b, ss) ∷ boots) marker h = omega (
  arith,
  emails-append ss (starts boots) marker,
  boot_once b h.0 ss marker h.1.0,
  emails_bounded boots (marker_after ss marker) h.1.1,
)
