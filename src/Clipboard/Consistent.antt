-- ===== src/Clipboard/Consistent.antt =====
-- What holds of the clipboard of crates/invisibool-clipboard/src/in_memory.rs after any operations.
use in_visibool.Prelude.{
  ℕ, Option-cases, length, get_elem?, All, length-append, All-append, All-map, push,
  get_elem?-push_old, get_elem?-push_new, Str, zero, suc, ◌+◌, ◌≡◌, refl, sym, ap, ◌∙◌, ◌⊎◌, inl,
  inr, Option, none, some, List, [], ◌∷◌, ◌++◌, append-nil, arith,
}
use in_visibool.Clipboard.{
  write_entry, clear_entry, default_state, calls, changed, simulate_external_write,
  force_next_read_fail, read_text, write_text, clear_text, subscribe, without, unsubscribe,
  PrivacyHints, ClipboardError, WriteSource, our_write, simulated_external, HistoryEntry,
  InMemoryRead, ClipboardEvent, InMemoryState,
}

pub data Operation : Type 0 where
  external : Str → Operation
  force : ClipboardError → Operation
  reading : Operation
  writing : Str → PrivacyHints → Operation
  clearing : Operation
  subscribing : ℕ → Operation
  dropping : ℕ → Operation

unfoldable pub perform : Operation → InMemoryState → InMemoryState
perform (external s) st = simulate_external_write s st
perform (force e) st = force_next_read_fail e st
perform reading st = (read_text st).1
perform (writing s hints) st = (write_text s hints st).1
perform clearing st = clear_text st
perform (subscribing callback) st = subscribe callback st
perform (dropping callback) st = unsubscribe callback st

unfoldable pub perform_all : List Operation → InMemoryState → InMemoryState
perform_all [] st = st
perform_all (o ∷ os) st = perform_all os (perform o st)

-- What an entry leaves on the clipboard.
abbrev pub entry_text : HistoryEntry → Option Str
entry_text (write_entry w) = some w.text
entry_text (clear_entry n source) = none

abbrev pub shown : List HistoryEntry → Option Str
shown [] = none
shown (e ∷ []) = entry_text e
shown (e ∷ e' ∷ es) = shown (e' ∷ es)

-- The tokens of our own writes, in their order.
abbrev pub own_tokens : List HistoryEntry → List ℕ
own_tokens [] = []
own_tokens (write_entry w ∷ es) = elim w.source [
  | our_write ↦ w.token ∷ own_tokens es
  | simulated_external ↦ own_tokens es
]
own_tokens (clear_entry n source ∷ es) = own_tokens es

-- `1, 2, …, n`
abbrev pub up_to : ℕ → List ℕ
up_to zero = []
up_to (suc n) = push (up_to n) (suc n)

-- The token by which an entry is recognised as ours.
abbrev pub token_of : HistoryEntry → Option ℕ
token_of (write_entry w) = elim w.source [ our_write ↦ some w.token | simulated_external ↦ none ]
token_of (clear_entry n source) = none

-- The event tells of the entry of its number, and of its token.
abbrev pub Tells : List HistoryEntry → ℕ × ClipboardEvent → Type 0
Tells history (callback, event) =
    (i : ℕ) × (e : HistoryEntry) × (event.change_count ≡ i + 1)
    × (get_elem? history i ≡ some e)
    × (event.matches_our_write ≡ token_of e)

pub record IsClipboard (st : InMemoryState) : Type 0 where
  pub counted : st.changes ≡ length st.history
  pub showing : st.current ≡ shown st.history
  pub writes : ℕ
  pub tokens : own_tokens st.history ≡ up_to writes
  pub fresh : st.next_token ≡ suc writes
  pub told : All (Tells st.history) st.delivered

shown-push : (es : List HistoryEntry) (e : HistoryEntry) → shown (push es e) ≡ entry_text e
shown-push [] e = refl
shown-push (e' ∷ []) e = refl
shown-push (e' ∷ e'' ∷ es) e = shown-push (e'' ∷ es) e

own_tokens-append :
    (es fs : List HistoryEntry) → own_tokens (es ++ fs) ≡ own_tokens es ++ own_tokens fs
own_tokens-append [] fs = refl
own_tokens-append (write_entry w ∷ es) fs = elim (source_cases w.source) [
  | inl e ↦ rw e (ap (λ t. w.token ∷ t) (own_tokens-append es fs))
  | inr e ↦ rw e (own_tokens-append es fs)
]
  where
    source_cases : (s : WriteSource) → (s ≡ our_write) ⊎ (s ≡ simulated_external)
    source_cases our_write = inl refl
    source_cases simulated_external = inr refl
own_tokens-append (clear_entry n source ∷ es) fs = own_tokens-append es fs

Tells-push :
    (history : List HistoryEntry) (entry : HistoryEntry) (d : ℕ × ClipboardEvent)
    → Tells history d
    → Tells (push history entry) d
Tells-push history entry (callback, event) (i, e, n, there, m) =
    (i, e, n, get_elem?-push_old history entry i there, m)

calls-Tells :
    (history : List HistoryEntry) (entry : HistoryEntry) (callbacks : List ℕ) (n : ℕ)
    (token : Option ℕ)
    → n ≡ length history
    → token ≡ token_of entry
    → All
        (Tells (push history entry))
        (calls callbacks (record { change_count = n + 1; matches_our_write = token }))
calls-Tells history entry [] n token h m = tt
calls-Tells history entry (s ∷ ss) n token h m = (
  (length history, entry, ap (λ k. k + 1) h, get_elem?-push_new history entry, m),
  calls-Tells history entry ss n token h m,
)

-- A change keeps all of it, if its entry, what it shows and its token agree.
changed-IsClipboard :
    (st : InMemoryState) (next writes' : ℕ) (text : Option Str) (entry : HistoryEntry)
    (token : Option ℕ)
    → (inv : IsClipboard st) → text ≡ entry_text entry
    → token ≡ token_of entry
    → own_tokens st.history ++ own_tokens (entry ∷ []) ≡ up_to writes'
    → next ≡ suc writes'
    → IsClipboard (changed (record st { next_token = next }) text entry token)
changed-IsClipboard st next writes' text entry token inv shows m tokens fresh = record {
  counted = ap (λ n. n + 1) inv.counted ∙ sym (length-append st.history (entry ∷ []));
  showing = shows ∙ sym (shown-push st.history entry);
  writes = writes';
  tokens = own_tokens-append st.history (entry ∷ []) ∙ tokens;
  fresh = fresh;
  told =
      All-append (Tells (push st.history entry)) st.delivered
        (calls st.subscribers (record { change_count = st.changes + 1; matches_our_write = token }))
        (All-map (Tells-push st.history entry) st.delivered inv.told)
        (calls-Tells st.history entry st.subscribers st.changes token inv.counted m);
}

-- The reads, the forced error and the subscribers are not part of it.
aside :
    (st : InMemoryState) (reads : List InMemoryRead) (forced : Option ClipboardError)
    (subscribers : List ℕ)
    → IsClipboard st
    → IsClipboard (record st { reads = reads; forced_read_err = forced; subscribers = subscribers })
aside st reads forced subscribers inv = record {
  counted = inv.counted;
  showing = inv.showing;
  writes = inv.writes;
  tokens = inv.tokens;
  fresh = inv.fresh;
  told = inv.told;
}

perform-IsClipboard :
    (o : Operation) (st : InMemoryState) → IsClipboard st → IsClipboard (perform o st)
unfolding perform simulate_external_write read_text write_text clear_text subscribe unsubscribe
perform-IsClipboard (external s) st inv =
    changed-IsClipboard st st.next_token inv.writes (some s) _ none inv refl refl
      (append-nil (own_tokens st.history) ∙ inv.tokens) inv.fresh
perform-IsClipboard (force e) st inv = aside st st.reads (some e) st.subscribers inv
perform-IsClipboard reading st inv = elim (Option-cases st.forced_read_err) [
  | inl e ↦ rw (e, read_text) (aside st _ none st.subscribers inv)
  | inr (x, e) ↦ rw (e, read_text) (aside st st.reads none st.subscribers inv)
]
perform-IsClipboard (writing s hints) st inv =
    changed-IsClipboard st (st.next_token + 1) (suc inv.writes) (some s) _ (some st.next_token) inv
      refl refl
      (ap (λ t. t ++ (st.next_token ∷ [])) inv.tokens
        ∙ ap (λ k. push (up_to inv.writes) k) inv.fresh)
      (ap (λ k. k + 1) inv.fresh ∙ omega arith)
perform-IsClipboard clearing st inv =
    changed-IsClipboard st st.next_token inv.writes none _ none inv refl refl
      (append-nil (own_tokens st.history) ∙ inv.tokens) inv.fresh
perform-IsClipboard (subscribing callback) st inv =
    aside st st.reads st.forced_read_err (push st.subscribers callback) inv
perform-IsClipboard (dropping callback) st inv =
    aside st st.reads st.forced_read_err (without callback st.subscribers) inv

perform_all-kept :
    (os : List Operation) (st : InMemoryState) → IsClipboard st → IsClipboard (perform_all os st)
unfolding perform_all
perform_all-kept [] st inv = inv
perform_all-kept (o ∷ os) st inv = perform_all-kept os (perform o st) (perform-IsClipboard o st inv)

-- After any operations on a new clipboard the change count is the number of entries in the history, the
-- clipboard shows what the last entry left, the tokens of our own writes are 1, 2, 3 and so on in their
-- order with the next one fresh, and every event that a subscriber got has the number of an entry and
-- exactly the token by which this entry is ours.
pub perform_all-IsClipboard : (os : List Operation) → IsClipboard (perform_all os default_state)
perform_all-IsClipboard os =
    perform_all-kept os default_state (record {
      counted = refl;
      showing = refl;
      writes = 0;
      tokens = refl;
      fresh = refl;
      told = tt;
    })
