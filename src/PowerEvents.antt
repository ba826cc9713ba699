-- ===== src/PowerEvents.antt =====
-- The recovery e-mail after a power event (backend/app/core/power_events.py): the marker file is the state.
pub mod Once
use codegraph_mcp.Base.{
  ==_of_ne, ==_refl, All, All-append, All-get, All-keep, All-put, Bool, Bool-cases, Call, Dict,
  IsBelow, IsDistinct, IsDistinct-append, IsSorted, Key, List, List-cases, Option, Option-cases,
  Str, Str-discrete, [], add, add-IsDistinct, any, ap, arith, decimal, diff, digits, ends_with,
  eq_of_==, false, foldl, fun_ext, get, get-keep, get-map_values, get-pop, get-put, get_absent,
  get_or, has, has-put, if◌then◌else◌, inl, inr, insert_sorted, is_space, keep, keep-IsDistinct,
  keep-append, keys, keys-put, last_piece, leb, leb→le, length, length-append, length-keep-le,
  length-map, length-sorted, length-take-le, lstrip, ltb, ltb→lt, map, map_values, max, member,
  member-add, member-append, member-diff, member-sorted, member-union, min, nat_key, neg_part,
  negsuc, none, not, pair_discrete, pair_key, pop, pos, pos_part, put, put-IsDistinct, raised, refl,
  returned, rstrip, short_name, some, sorted, sorted-IsSorted, starts_with, str, str_key, str_leb,
  str_leb_total, str_leb_trans, strip, strip-strip, sub_ℕ, subst, suc, sym, take, true, union, zero,
  ℕ, ℕ_discrete, ℤ, ◌%◌, ◌&&◌, ◌*◌, ◌++◌, ◌+◌, ◌-◌, ◌/◌, ◌<◌, ◌==◌, ◌||◌, ◌↔◌, ◌∙◌, ◌∷◌, ◌≡◌, ◌≢◌,
  ◌≤ℤ◌, ◌≤◌, ◌⊎◌,
}

-- Seconds are in hundredths, as /proc/uptime gives them.
abbrev pub power_event_window : ℕ
power_event_window = 30 * 60 * 100

-- What one start of the backend meets; `write` is the write of the marker with its directory, `send` is the
-- e-mail with the statistics in it.
pub record Start : Type 0 where
  pub proc_uptime : Call ℕ
  pub proc_boot_id : Call Str
  pub write : Call (Unit {0})
  pub send : Call (Unit {0})

-- none for -1.0
unfoldable pub host_uptime : Start → Option ℕ
host_uptime s = elim s.proc_uptime [ raised e ↦ none | returned u ↦ some u ]

unfoldable pub boot_id_of : Start → Str
boot_id_of s = elim s.proc_boot_id [ raised e ↦ [] | returned b ↦ strip b ]

-- The text of the marker file, none while there is no file
unfoldable pub already_alerted_for_boot : Str → Option Str → Bool
already_alerted_for_boot boot none = false
already_alerted_for_boot boot (some text) = strip text == boot

unfoldable pub mark_boot_alerted : Start → Str → Option Str → Option Str
mark_boot_alerted s boot marker = elim s.write [ raised e ↦ marker | returned u ↦ some boot ]

-- The marker after the start, and whether `send_email` is called
unfoldable pub check_and_notify_power_event : Start → Option Str → Option Str × Bool
check_and_notify_power_event s marker =
    let boot = boot_id_of s in
    elim (host_uptime s) [
      | none ↦ (marker, false)
      | some uptime ↦
          if ltb power_event_window uptime
          then (marker, false)
          else if not (boot == []) && already_alerted_for_boot boot marker
          then (marker, false)
          else (mark_boot_alerted s boot marker, true)
    ]

-- The e-mails of a sequence of starts
unfoldable pub emails : List Start → Option Str → ℕ
emails [] marker = 0
emails (s ∷ ss) marker =
    let r = check_and_notify_power_event s marker in (if r.1 then 1 else 0) + emails ss r.0

-- The marker after a sequence of starts
unfoldable pub marker_after : List Start → Option Str → Option Str
marker_after [] marker = marker
marker_after (s ∷ ss) marker = marker_after ss (check_and_notify_power_event s marker).0
