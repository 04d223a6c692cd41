-- ===== src/Logger/History.antt =====
-- The logger against the list of all entries that were ever logged, oldest first.
use nxremote_api.Base.{
  ℕ, ◌+◌, ◌-◌, ◌%◌, ◌^◌, ◌≤◌, ◌<◌, min, ◌≡◌, refl, sym, ap, ◌∙◌, Option, none, some, List, [], ◌∷◌,
  ◌++◌, append_assoc, set, get_or, length, length-append, length-set, get_or-set_self,
  get_or-set_ne, get_or-append_lt, get_or-append_end, ltb, lt→leb, le→leb, lt→ltb, le→ltb, map,
  append-nil, if◌then◌else◌, arith,
}
use nxremote_api.Base.Text.{Bytes}
use nxremote_api.Logger.{
  LogLevel, LogEntry, Logger, max_log_entries, blank, init, is_error, entry_of, store, log, get_log,
  u32, actual_index,
}
use native.Mathlib.Decide.{dec_lt}

abbrev pub errors : List LogEntry → ℕ
errors [] = 0
errors (e ∷ es) = (if is_error e.level then 1 else 0) + errors es

-- The ring holds the end of the history: entry number `k` in slot `k % 50`.
pub record Holds (l : Logger) (history : List LogEntry) : Type 0 where
  pub size : length l.logs ≡ max_log_entries
  pub at : l.head ≡ length history % max_log_entries
  pub filled : l.count ≡ min max_log_entries (length history)
  pub counted : l.error_count ≡ u32 (errors history)
  pub slots :
      (k : ℕ)
      → k < length history
      → length history ≤ k + max_log_entries
      → get_or l.logs (k % max_log_entries) blank ≡ get_or history k blank

pub init-Holds : Holds init []
unfolding init
init-Holds = record {
  size = refl;
  at = refl;
  filled = refl;
  counted = refl;
  slots = λ k h _. absurd (omega arith);
}

errors-append :
    (es : List LogEntry) (e : LogEntry) → errors (es ++ e ∷ []) ≡ errors es + errors (e ∷ [])
errors-append [] e = omega arith
errors-append (x ∷ es) e = omega (arith, errors-append es e)

module _ {l : Logger} {history : List LogEntry} (h : Holds l history) (e : LogEntry) where
  store_slots :
      (k : ℕ)
      → k < length history + 1
      → length history + 1 ≤ k + max_log_entries
      → get_or (set l.logs l.head e) (k % max_log_entries) blank
        ≡ get_or (history ++ e ∷ []) k blank
  store_slots k new recent = elim (dec_lt k (length history)) [
    | yes old ↦
        get_or-set_ne l.logs e blank (omega (arith, h.at))
        ∙ h.slots k old (omega arith)
        ∙ sym (get_or-append_lt history (e ∷ []) k blank old)
    | no last ↦
        let here : k % max_log_entries ≡ l.head = omega (arith, h.at) in
        rw here (get_or-set_self l.logs l.head e blank (omega (arith, h.at, h.size)))
        ∙ sym (get_or-append_end history e blank k (omega arith))
  ]

  -- Storing an entry appends it to the history.
  store-Holds : Holds (store l e) (history ++ e ∷ [])
  unfolding store
  store-Holds = record {
    size = length-set l.logs l.head e ∙ h.size;
    at = omega (arith, h.at, length-append history (e ∷ []));
    filled = ground (arith, h.filled, length-append history (e ∷ []));
    counted = ground (arith, h.counted, errors-append history e);
    slots = λ k new recent.
        store_slots k (omega (arith, length-append history (e ∷ [])))
          (omega (arith, length-append history (e ∷ [])));
  }

-- The safeguard of `log` never holds, since the count stays at fifty.
pub log-store :
    {l : Logger} {history : List LogEntry} (level : LogLevel) (message : Bytes)
    (stamp : Option Bytes)
    → Holds l history
    → log l level message stamp ≡ store l (entry_of level message stamp)
unfolding log
log-store {l} level message stamp h = rw (lt→leb 0xFFFFFFF0 l.count (omega (arith, h.filled)))

-- A call of `log`.
abbrev pub LogCall : Type 0
LogCall = LogLevel × Bytes × Option Bytes

abbrev pub entry : LogCall → LogEntry
entry (level, message, stamp) = entry_of level message stamp

unfoldable pub log_all : Logger → List LogCall → Logger
log_all l [] = l
log_all l ((level, message, stamp) ∷ calls) = log_all (log l level message stamp) calls

pub log_all-Holds :
    (calls : List LogCall) {l : Logger} {history : List LogEntry}
    → Holds l history
    → Holds (log_all l calls) (history ++ map entry calls)
unfolding log_all
log_all-Holds [] {history = history} h = rw append-nil h
log_all-Holds ((level, message, stamp) ∷ calls) {history = history} h =
    let e = entry_of level message stamp in
    rw (log-store level message stamp h, ← append_assoc history (e ∷ []) (map entry calls))
      (log_all-Holds calls (store-Holds h e))

slot_of :
    (n i : ℕ)
    → i < min 50 n
    → u32 (u32 (u32 (n % 50 + 2 ^ 32 - min 50 n) + i) + 50) % 50 ≡ (n - min 50 n + i) % 50
slot_of n i h = omega arith

get_log_kept :
    (i : ℕ) {l : Logger} {history : List LogEntry}
    → Holds l history
    → i < min max_log_entries (length history)
    → get_log l i
      ≡ some (get_or history (length history - min max_log_entries (length history) + i) blank)
unfolding get_log
get_log_kept i {l} {history} h kept =
    let n = length history in
    let place : actual_index l i ≡ (n - min 50 n + i) % 50 =
      rw (h.at, h.filled) (slot_of n i kept) in
    rw (lt→leb l.count i (omega (arith, h.filled)), place)
      (ap some (h.slots (n - min 50 n + i) (omega arith) (omega arith)))

get_log-none :
    (i : ℕ) {l : Logger} {history : List LogEntry}
    → Holds l history
    → min max_log_entries (length history) ≤ i
    → get_log l i ≡ none
unfolding get_log
get_log-none i {l} h past = rw (le→leb l.count i (omega (arith, h.filled)))

-- After any calls of `log`, `getLog` gives the last fifty entries (all, if there are fewer), oldest
-- first, and nothing from there on.
pub get_log-log_all :
    (calls : List LogCall) (i : ℕ)
    → let entries = map entry calls in
      let kept = min max_log_entries (length entries) in
      get_log (log_all init calls) i
      ≡ (if ltb i kept then some (get_or entries (length entries - kept + i) blank) else none)
get_log-log_all calls i =
    let h = log_all-Holds calls init-Holds in
    let kept = min max_log_entries (length (map entry calls)) in
    elim (dec_lt i kept) [
      | yes inside ↦ rw (lt→ltb i kept inside) (get_log_kept i h inside)
      | no past ↦ rw (le→ltb i kept (omega arith)) (get_log-none i h (omega arith))
    ]

-- `getLogCount` is the number of entries kept, and `getErrorCount` counts every error ever logged.
pub counts-log_all :
    (calls : List LogCall)
    → let entries = map entry calls in
      ((log_all init calls).count ≡ min max_log_entries (length entries))
      × ((log_all init calls).error_count ≡ u32 (errors entries))
counts-log_all calls = let h = log_all-Holds calls init-Holds in (h.filled, h.counted)
