-- ===== src/Downloader.antt =====
-- src/filedownloader.cpp and filedownloader.h: a download as a machine over the events of the network, of
-- the timer and of the user. Qt's URLs and replies are parameters. The `finished` signal that an `abort`
-- causes is an event of its own: each call of `abort` is the last statement of its slot, but for the one
-- in fileDownloaded, whose reply has finished.
pub mod Invariant
use p2000t_cartridge_studio.Bytes.{Bytes, is_empty}
use p2000t_cartridge_studio.Text.{codes}
use p2000t_cartridge_studio.Base.{
  ℕ, zero, suc, ◌+◌, ◌-◌, ◌*◌, ◌/◌, ◌%◌, ◌^◌, ◌≤◌, ◌<◌, min, max, bit_and, bit_or, bit_xor, ◌≡◌,
  refl, sym, ap, subst, ◌∙◌, ◌≢◌, ◌↔◌, ◌⊎◌, inl, inr, Bool, true, false, not, ◌&&◌, ◌||◌, Option,
  none, some, List, [], ◌∷◌, ◌++◌, map, append-nil, append_assoc, arith, ltb, leb, ◌==◌,
  if◌then◌else◌, Bool-cases, if_both, Option-cases, ==_iff, ltb→lt, lt→ltb, leb→le, length,
  get_elem?, get_or, set, take, drop, replicate, length-append, length-take, length-drop,
  length-replicate, length-map, length-set, get_elem?-set_self, get_elem?-set_ne, get_elem?-ge,
  get_elem?-take, get_elem?-drop, get_elem?-append, get_elem?-replicate, list_ext, take-append-drop,
  get_or_append_exact, take-length, drop-length, take_append_exact, drop_append_exact,
  take-append_le, drop-append_le, bit_and_step, bit_or_step, bit_xor_step, bit_xor-bit_xor_right,
  bit_xor-parity, bit_xor-lt, bit_xor_left_cancel, bit_xor_right_cancel, bit_xor_comm,
  bit_or-shifted, bit_or-zero, bit_and-zero, bit_and-pow, bit_xor-div, bit_and-one,
}

-- The texts of m_ErrorMessage, with their arguments.
pub data Message : Type 0 where
  timed_out cancelled not_https too_many_redirects empty_response : Message
  too_large : ℕ → ℕ → Message
  exceeded : ℕ → Message
  unexpected_status : ℕ → Message
  network_error : Bytes → Message

-- A reply that has finished: its error if it has one, the status of HTTP, the target of a redirect if it
-- has one, its address, and what readAll still returns.
pub record Reply (U : Type 0) : Type 0 where
  pub error : Option Bytes
  pub status_code : ℕ
  pub redirect_target : Option U
  pub url : U
  pub remaining : Bytes

-- What happens to a downloader. A reply is a number, in the order of the requests.
pub data Happening (U : Type 0) : Type 0 where
  first_turn : Happening U
  ready_read : Bytes → Happening U
  meta_data_changed : ℕ → Happening U
  reply_finished : ℕ → Reply U → Happening U
  timeout : Happening U
  cancel : Happening U

-- The members, and with them the call that `QTimer::singleShot` still owes, the requests made, the last
-- first, the replies aborted, and how often `downloaded` was emitted.
pub record Downloader (U : Type 0) : Type 0 where
  pub pending : Option U
  pub reply : Option ℕ
  pub timer_active : Bool
  pub downloaded_data : Bytes
  pub success : Bool
  pub finished : Bool
  pub error_message : Option Message
  pub redirect_count : ℕ
  pub maximum_bytes : ℕ
  pub requests : List U
  pub aborted : List ℕ
  pub emitted : ℕ

unfoldable pub constructed : {U : Type 0} → U → ℕ → Downloader U
constructed url maximum = record {
  pending = some url;
  reply = none;
  timer_active = false;
  downloaded_data = [];
  success = false;
  finished = false;
  error_message = none;
  redirect_count = 0;
  maximum_bytes = maximum;
  requests = [];
  aborted = [];
  emitted = 0;
}

-- `m_ErrorMessage`, or the text of the reply where there is none.
abbrev pub reported : Option Message → Bytes → Message
reported none text = network_error text
reported (some message) text = message

module _ {U : Type 0} where
  unfoldable pub finish_failure : Message → Downloader U → Downloader U
  finish_failure message m = if m.finished then m else record m {
    timer_active = false;
    finished = true;
    success = false;
    error_message = some message;
    emitted = m.emitted + 1;
  }

  -- `m_Reply->abort()` for the reply there is, with the message set before.
  abbrev pub abort_with : Message → ℕ → Downloader U → Downloader U
  abort_with message id m = record m { error_message = some message; aborted = id ∷ m.aborted }

  -- The slot of the timer, and cancel.
  unfoldable pub give_up : Message → Downloader U → Downloader U
  unfolding finish_failure
  give_up message m = if m.finished then m else elim m.reply [
    | none ↦ finish_failure message (record m { error_message = some message })
    | some id ↦ abort_with message id m
  ]

  unfoldable pub meta_data : ℕ → Downloader U → Downloader U
  meta_data size m = if m.finished then m else elim m.reply [
    | none ↦ m
    | some id ↦
        (if ltb m.maximum_bytes size then abort_with (too_large size m.maximum_bytes) id m else m)
  ]

  unfoldable pub read_available_data : Bytes → Downloader U → Downloader U
  read_available_data content m =
      let all = m.downloaded_data ++ content in
      let longer = record m { downloaded_data = all } in
      if m.finished then m else elim m.reply [
        | none ↦ m
        | some id ↦
            (if ltb m.maximum_bytes (length all)
              then abort_with (exceeded m.maximum_bytes) id longer
              else longer)
      ]

  unfoldable pub succeed : Downloader U → Downloader U
  succeed m = record m {
    success = true;
    finished = true;
    timer_active = false;
    reply = none;
    emitted = m.emitted + 1;
  }

  -- `is_valid` and `scheme` of a URL, the comparison of texts that ignores case, and `resolved`.
  module _ (is_valid : U → Bool) (scheme : U → Bytes) (same_word : Bytes → Bytes → Bool)
      (resolved : U → U → U) where
    abbrev pub acceptable : U → Bool
    acceptable url = is_valid url && same_word (scheme url) (codes "https")

    unfoldable pub start_request : U → Downloader U → Downloader U
    unfolding finish_failure
    start_request url m =
        if m.finished
        then m
        else if not (acceptable url)
        then finish_failure not_https m
        else record m {
          reply = some (length m.requests);
          requests = url ∷ m.requests;
          timer_active = true;
        }

    unfoldable pub redirect : U → U → Downloader U → Downloader U
    unfolding start_request finish_failure
    redirect url target m =
        let counted = record m { redirect_count = m.redirect_count + 1; reply = none } in
        if ltb 5 counted.redirect_count
        then finish_failure too_many_redirects counted
        else start_request (resolved url target) (record counted { downloaded_data = [] })

    -- A reply without an error and without a redirect.
    unfoldable pub accept_body : ℕ → Downloader U → Downloader U
    unfolding finish_failure succeed
    accept_body status_code m =
        let detached = record m { reply = none } in
        if ltb status_code 200 || leb 300 status_code
        then finish_failure (unexpected_status status_code) detached
        else if is_empty m.downloaded_data
        then finish_failure empty_response detached
        else succeed m

    unfoldable pub conclude_reply : Reply U → Downloader U → Downloader U
    unfolding redirect accept_body finish_failure
    conclude_reply r m =
        let is_redirect = leb 300 r.status_code && ltb r.status_code 400 in
        elim r.error [
          | some text ↦ finish_failure (reported m.error_message text) (record m { reply = none })
          | none ↦ elim r.redirect_target [
            | none ↦ accept_body r.status_code m
            | some target ↦
                (if is_redirect then redirect r.url target m else accept_body r.status_code m)
          ]
        ]

    -- `pReply == m_Reply`.
    abbrev pub is_current : ℕ → Option ℕ → Bool
    is_current id none = false
    is_current id (some current) = id == current

    unfoldable pub file_downloaded : ℕ → Reply U → Downloader U → Downloader U
    unfolding conclude_reply read_available_data
    file_downloaded id r m =
        if m.finished || not (is_current id m.reply)
        then m
        else conclude_reply r (read_available_data r.remaining m)

    unfoldable pub handle : Happening U → Downloader U → Downloader U
    unfolding start_request read_available_data meta_data file_downloaded give_up
    handle first_turn m = elim m.pending [
      | none ↦ m
      | some url ↦ start_request url (record m { pending = none })
    ]
    handle (ready_read content) m = read_available_data content m
    handle (meta_data_changed size) m = meta_data size m
    handle (reply_finished id r) m = file_downloaded id r m
    handle timeout m = give_up timed_out m
    handle cancel m = give_up cancelled m

    abbrev pub handle_all : List (Happening U) → Downloader U → Downloader U
    handle_all [] m = m
    handle_all (h ∷ hs) m = handle_all hs (handle h m)
