-- ===== src/Clipboard.antt =====
-- crates/invisibool-clipboard: the clipboard in memory of in_memory.rs, the hints of hints.rs and the
-- display servers of display_server.rs. The callbacks of subscribers are numbers, their addresses, and
-- what they are called with is kept in `delivered`. The counters are natural numbers: a wrap in 64 bits
-- takes 2^64 operations.
pub mod Consistent
use in_visibool.Prelude.{
  ℕ, ◌==◌, if◌then◌else◌, push, Str, codes, str_eq, ◌+◌, Bool, true, false, not, ◌||◌, Option, none,
  some, List, [], ◌∷◌, ◌++◌,
}
use in_visibool.Storage.{Result, ok, err}

pub record PrivacyHints : Type 0 where
  pub exclude_from_clipboard_history : Bool
  pub exclude_from_cloud_sync : Bool
  pub exclude_from_screen_monitors : Bool
  pub macos_concealed_type : Bool

abbrev pub conceal_all : PrivacyHints
conceal_all = record {
  exclude_from_clipboard_history = true;
  exclude_from_cloud_sync = true;
  exclude_from_screen_monitors = true;
  macos_concealed_type = true;
}

-- `PrivacyHints::NONE`
abbrev pub no_hints : PrivacyHints
no_hints = record {
  exclude_from_clipboard_history = false;
  exclude_from_cloud_sync = false;
  exclude_from_screen_monitors = false;
  macos_concealed_type = false;
}

-- `PrivacyHints::any`
abbrev pub any_hint : PrivacyHints → Bool
any_hint h =
    h.exclude_from_clipboard_history
    || (h.exclude_from_cloud_sync || (h.exclude_from_screen_monitors || h.macos_concealed_type))

pub data ClipboardError : Type 0 where
  unsupported read_failed write_failed clear_failed subscribe_failed : Str → ClipboardError

pub data WriteSource : Type 0 where
  our_write simulated_external : WriteSource

pub record InMemoryWrite : Type 0 where
  pub token : ℕ
  pub change_count_after : ℕ
  pub text : Str
  pub hints : PrivacyHints
  pub source : WriteSource

pub data HistoryEntry : Type 0 where
  write_entry : InMemoryWrite → HistoryEntry
  clear_entry : ℕ → WriteSource → HistoryEntry

pub record InMemoryRead : Type 0 where
  pub at_change_count : ℕ
  pub had_text : Bool
  pub snapshot : Option Str

pub record ClipboardEvent : Type 0 where
  pub change_count : ℕ
  pub matches_our_write : Option ℕ

pub record InMemoryState : Type 0 where
  pub current : Option Str
  pub changes : ℕ
  pub next_token : ℕ
  pub subscribers : List ℕ
  pub history : List HistoryEntry
  pub reads : List InMemoryRead
  pub forced_read_err : Option ClipboardError
  pub delivered : List (ℕ × ClipboardEvent)

-- `InMemoryState::default`
abbrev pub default_state : InMemoryState
default_state = record {
  current = none;
  changes = 0;
  next_token = 1;
  subscribers = [];
  history = [];
  reads = [];
  forced_read_err = none;
  delivered = [];
}

-- `for sub in subs { sub(event) }`
abbrev pub calls : List ℕ → ClipboardEvent → List (ℕ × ClipboardEvent)
calls [] event = []
calls (s ∷ ss) event = (s, event) ∷ calls ss event

-- A change, its entry in the history, and its event.
abbrev pub changed : InMemoryState → Option Str → HistoryEntry → Option ℕ → InMemoryState
changed st shown entry token = record st {
  current = shown;
  changes = st.changes + 1;
  history = push st.history entry;
  delivered =
      st.delivered
      ++ calls st.subscribers (record { change_count = st.changes + 1; matches_our_write = token });
}

unfoldable pub simulate_external_write : Str → InMemoryState → InMemoryState
simulate_external_write s st =
    changed st (some s)
      (write_entry (record {
        token = 0;
        change_count_after = st.changes + 1;
        text = s;
        hints = no_hints;
        source = simulated_external;
      }))
      none

abbrev pub force_next_read_fail : ClipboardError → InMemoryState → InMemoryState
force_next_read_fail e st = record st { forced_read_err = some e }

abbrev pub is_some : Option Str → Bool
is_some none = false
is_some (some s) = true

unfoldable pub read_text : InMemoryState → Result ClipboardError (Option Str) × InMemoryState
read_text st = elim st.forced_read_err [
  | some e ↦ (err e, record st { forced_read_err = none })
  | none ↦ (
    ok st.current,
    record st {
      reads = push st.reads (record {
        at_change_count = st.changes;
        had_text = is_some st.current;
        snapshot = st.current;
      });
    },
  )
]

unfoldable pub write_text : Str → PrivacyHints → InMemoryState → ℕ × InMemoryState
write_text s hints st = (
  st.next_token,
  changed (record st { next_token = st.next_token + 1 }) (some s)
      (write_entry (record {
        token = st.next_token;
        change_count_after = st.changes + 1;
        text = s;
        hints = hints;
        source = our_write;
      }))
      (some st.next_token),
)

-- `clear`
unfoldable pub clear_text : InMemoryState → InMemoryState
clear_text st = changed st none (clear_entry (st.changes + 1) our_write) none

unfoldable pub subscribe : ℕ → InMemoryState → InMemoryState
subscribe callback st = record st { subscribers = push st.subscribers callback }

abbrev pub without : ℕ → List ℕ → List ℕ
without callback [] = []
without callback (s ∷ ss) =
    let rest = without callback ss in if s == callback then rest else s ∷ rest

-- The `drop` of a subscription.
unfoldable pub unsubscribe : ℕ → InMemoryState → InMemoryState
unsubscribe callback st = record st { subscribers = without callback st.subscribers }

pub data DisplayServer : Type 0 where
  x11 wayland headless native_desktop : DisplayServer

abbrev pub non_empty : Option Str → Bool
non_empty none = false
non_empty (some v) = not (str_eq v [])

abbrev pub is_text : Option Str → Str → Bool
is_text none s = false
is_text (some v) s = str_eq v s

unfoldable pub detect_display_server_from : Option Str → Option Str → Option Str → DisplayServer
detect_display_server_from wayland_display xdg_session_type display =
    if non_empty wayland_display
    then wayland
    else if is_text xdg_session_type (codes "wayland")
    then wayland
    else if non_empty display
    then x11
    else if is_text xdg_session_type (codes "x11")
    then x11
    else headless
