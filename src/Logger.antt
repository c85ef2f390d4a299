-- ===== src/Logger.antt =====
-- src/logger.rs: the in-memory log.
use rignite.Common.{
  ℕ, zero, suc, ◌+◌, ◌-◌, ◌≤◌, ◌≡◌, refl, sym, ap, ◌∙◌, Option, none, some, List, [], ◌∷◌, ◌++◌,
  leb, if◌then◌else◌, arith, Bool-cases, inl, inr, length, drop, leb→le, le→leb, true, false,
  length-append, drop-suc,
}
use rignite.Common.Text.{Text}
mod Examples

pub record LogEntry : Type 0 where
  pub level : Text
  pub message : Text

-- `LOG_BUFFER`, before `init` and after it.
abbrev pub LogBuffer : Type 0
LogBuffer = Option (List LogEntry)

unfoldable pub init : LogBuffer → LogBuffer
init none = some []
init (some buffer) = some buffer

abbrev pub capacity : ℕ
capacity = 50

-- `remove(0)` where the buffer is full, and `push`.
unfoldable pub log : LogBuffer → LogEntry → LogBuffer
log none entry = none
log (some buffer) entry =
    some ((if leb capacity (length buffer) then drop 1 buffer else buffer) ++ (entry ∷ []))

unfoldable pub get_logs : LogBuffer → List LogEntry
get_logs none = []
get_logs (some buffer) = buffer

-- A sequence of calls of `log`.
unfoldable pub log_all : LogBuffer → List LogEntry → LogBuffer
log_all b [] = b
log_all b (e ∷ es) = log_all (log b e) es

-- The last 50 of a list.
abbrev pub newest : List LogEntry → List LogEntry
newest entries = drop (length entries - capacity) entries

append_nil : (xs : List LogEntry) → xs ++ [] ≡ xs
append_nil [] = refl
append_nil (x ∷ xs) = ap (λ l. x ∷ l) (append_nil xs)

append-snoc :
    (xs : List LogEntry) (e : LogEntry) (es : List LogEntry)
    → (xs ++ (e ∷ [])) ++ es ≡ xs ++ (e ∷ es)
append-snoc [] e es = refl
append-snoc (x ∷ xs) e es = ap (λ l. x ∷ l) (append-snoc xs e es)

newest-∷ : (x : LogEntry) (xs : List LogEntry) → capacity ≤ length xs → newest (x ∷ xs) ≡ newest xs
newest-∷ x xs h = drop-suc (length xs - capacity) x xs (omega arith)

Follows : List LogEntry → LogEntry → List LogEntry → Type 0
Follows buffer entry entries =
    (kept : List LogEntry) × (log (some buffer) entry ≡ some kept)
    × (length kept ≤ capacity)
    × (newest (kept ++ entries) ≡ newest (buffer ++ (entry ∷ entries)))

-- One call, seen in the last 50 entries of all that was logged.
log-newest :
    (buffer : List LogEntry) (entry : LogEntry) (entries : List LogEntry)
    → length buffer ≤ capacity
    → Follows buffer entry entries
unfolding log Follows
log-newest [] entry entries h = (entry ∷ [], refl, omega arith, refl)
log-newest (x ∷ xs) entry entries h = elim (Bool-cases (leb capacity (length (x ∷ xs)))) [
  | inl a ↦ (
    xs ++ (entry ∷ []),
    rw a,
    omega (arith, length-append xs (entry ∷ [])),
    ap newest (append-snoc xs entry entries)
        ∙ sym (
            newest-∷ x (xs ++ (entry ∷ entries)) (
              omega
                (arith, length-append xs (entry ∷ entries), leb→le capacity (length (x ∷ xs)) a))),
  )
  | inr a ↦ (
    (x ∷ xs) ++ (entry ∷ []),
    rw a,
    grind (arith, length-append (x ∷ xs) (entry ∷ []), le→leb capacity (length (x ∷ xs))),
    ap newest (append-snoc (x ∷ xs) entry entries),
  )
]

log_all-newest :
    (buffer entries : List LogEntry)
    → length buffer ≤ capacity
    → get_logs (log_all (some buffer) entries) ≡ newest (buffer ++ entries)
unfolding log_all get_logs Follows
log_all-newest buffer [] h =
    let z : 0 ≡ length buffer - capacity = omega arith in
    ap (λ n. drop n buffer) z ∙ ap newest (sym (append_nil buffer))
log_all-newest buffer (e ∷ es) h =
    let (kept, f, g, k) = log-newest buffer e es h in rw f (log_all-newest kept es g ∙ k)

log_all-none : (entries : List LogEntry) → get_logs (log_all none entries) ≡ []
unfolding log_all get_logs log
log_all-none [] = refl
log_all-none (e ∷ es) = log_all-none es

-- After `init`, and whatever is logged then, the log shows exactly the last 50 entries in order.
pub get_logs-log_all :
    (entries : List LogEntry)
    → (get_logs (log_all (init none) entries) ≡ drop (length entries - 50) entries)
      × (get_logs (log_all none entries) ≡ [])
unfolding init log_all
get_logs-log_all entries = (log_all-newest [] entries (omega arith), log_all-none entries)
