-- ===== src/Downloader/Invariant.antt =====
-- What holds of a downloader of src/filedownloader.cpp after any sequence of events.
use p2000t_cartridge_studio.Bytes.{Bytes, is_empty}
use p2000t_cartridge_studio.Downloader.{
  Message, exceeded, timed_out, cancelled, too_many_redirects, Reply, Happening, first_turn,
  ready_read, meta_data_changed, reply_finished, timeout, cancel, Downloader, constructed,
  finish_failure, give_up, meta_data, read_available_data, succeed, acceptable, start_request,
  redirect, accept_body, is_current, conclude_reply, file_downloaded, handle, handle_all,
}
use p2000t_cartridge_studio.Base.{
  ℕ, ◌+◌, ◌≤◌, min, ◌≡◌, refl, Bool, true, false, not, ◌&&◌, ◌||◌, Option, none, some, List, [],
  ◌∷◌, ◌++◌, arith, ltb, leb, if◌then◌else◌, if_both, length,
}

abbrev pub owed : {U : Type 0} → Option U → ℕ
owed none = 0
owed (some url) = 1

abbrev pub count : Bool → ℕ
count false = 0
count true = 1

module _ {U : Type 0} (is_valid : U → Bool) (scheme : U → Bytes) (same_word : Bytes → Bytes → Bool)
    (resolved : U → U → U) where
  abbrev ok_url : U → Bool
  ok_url url = acceptable is_valid scheme same_word resolved url

  abbrev pub all_acceptable : List U → Bool
  all_acceptable [] = true
  all_acceptable (url ∷ urls) = ok_url url && all_acceptable urls

  pub record Sound (m : Downloader U) : Type 0 where
    pub once : m.emitted ≡ count m.finished
    pub success_finished : m.success ≡ true → m.finished ≡ true
    pub not_empty : m.success ≡ true → is_empty m.downloaded_data ≡ false
    pub secure : all_acceptable m.requests ≡ true
    pub budget : length m.requests + owed m.pending ≤ m.redirect_count + 1
    pub few : length m.requests + owed m.pending ≤ 6

  finish_failure-Sound :
      (message : Message) (m : Downloader U) → Sound m → Sound (finish_failure message m)
  unfolding finish_failure
  finish_failure-Sound message m h = ground (arith, h)

  read_available_data-Sound :
      (content : Bytes) (m : Downloader U) → Sound m → Sound (read_available_data content m)
  unfolding read_available_data
  read_available_data-Sound content m h = ground (arith, h)

  give_up-Sound : (message : Message) (m : Downloader U) → Sound m → Sound (give_up message m)
  unfolding give_up finish_failure
  give_up-Sound message m h = ground (arith, h)

  meta_data-Sound : (size : ℕ) (m : Downloader U) → Sound m → Sound (meta_data size m)
  unfolding meta_data
  meta_data-Sound size m h = ground (arith, h)

  -- A request takes one of those that are left.
  start_request-Sound :
      (url : U) (m : Downloader U)
      → Sound m
      → length m.requests + owed m.pending + 1 ≤ min 6 (m.redirect_count + 1)
      → Sound (start_request is_valid scheme same_word resolved url m)
  unfolding start_request finish_failure
  start_request-Sound url m h room = ground (arith, h, room)

  redirect-Sound :
      (url target : U) (m : Downloader U)
      → Sound m
      → m.finished ≡ false
      → Sound (redirect is_valid scheme same_word resolved url target m)
  unfolding redirect
  redirect-Sound url target m h running =
      let idle : m.success ≡ true → ⊥ = λ s. ground (arith, running, s, h.success_finished) in
      if_both Sound (ltb 5 (m.redirect_count + 1)) _ _
        (λ many.
          finish_failure-Sound too_many_redirects
            (record m { redirect_count = m.redirect_count + 1; reply = none }) (ground (arith, h)))
        (λ few.
          start_request-Sound (resolved url target)
            (record m { redirect_count = m.redirect_count + 1; reply = none; downloaded_data = [] })
            (ground (arith, h, idle)) (ground (arith, h, few)))

  accept_body-Sound :
      (status_code : ℕ) (m : Downloader U)
      → Sound m
      → m.finished ≡ false
      → Sound (accept_body is_valid scheme same_word resolved status_code m)
  unfolding accept_body finish_failure succeed
  accept_body-Sound status_code m h running = ground (arith, h, running)

  conclude_reply-Sound :
      (error : Option Bytes) (target : Option U) (status_code : ℕ) (url : U) (remaining : Bytes)
      (m : Downloader U)
      → Sound m
      → m.finished ≡ false
      → Sound (
          conclude_reply is_valid scheme same_word resolved
            (record {
              error = error;
              status_code = status_code;
              redirect_target = target;
              url = url;
              remaining = remaining;
            })
            m)
  unfolding conclude_reply
  conclude_reply-Sound (some text) target status_code url remaining m h running =
      finish_failure-Sound _ (record m { reply = none }) (ground (arith, h))
  conclude_reply-Sound none none status_code url remaining m h running =
      accept_body-Sound status_code m h running
  conclude_reply-Sound none (some target) status_code url remaining m h running =
      if_both Sound (leb 300 status_code && ltb status_code 400) _ _
        (λ e. redirect-Sound url target m h running)
        (λ e. accept_body-Sound status_code m h running)

  still_running :
      (content : Bytes) (m : Downloader U)
      → m.finished ≡ false
      → (read_available_data content m).finished ≡ false
  unfolding read_available_data
  still_running content m running = ground (arith, running)

  file_downloaded-Sound :
      (id : ℕ) (r : Reply U) (m : Downloader U)
      → Sound m
      → Sound (file_downloaded is_valid scheme same_word resolved id r m)
  unfolding file_downloaded
  file_downloaded-Sound id r m h =
      if_both Sound (m.finished || not (is_current is_valid scheme same_word resolved id m.reply)) _
        _ (λ stale. h)
        (λ current.
          conclude_reply-Sound r.error r.redirect_target r.status_code r.url r.remaining _
            (read_available_data-Sound r.remaining m h)
            (still_running r.remaining m (ground (arith, current))))

  first_turn-Sound :
      (pending : Option U) (m : Downloader U)
      → Sound (record m { pending = pending })
      → Sound
          (handle is_valid scheme same_word resolved first_turn (record m { pending = pending }))
  unfolding handle
  first_turn-Sound none m h = h
  first_turn-Sound (some url) m h =
      start_request-Sound url (record m { pending = none }) (ground (arith, h)) (ground (arith, h))

  handle-Sound :
      (e : Happening U) (m : Downloader U)
      → Sound m
      → Sound (handle is_valid scheme same_word resolved e m)
  unfolding handle
  handle-Sound first_turn m h = first_turn-Sound m.pending m h
  handle-Sound (ready_read content) m h = read_available_data-Sound content m h
  handle-Sound (meta_data_changed size) m h = meta_data-Sound size m h
  handle-Sound (reply_finished id r) m h = file_downloaded-Sound id r m h
  handle-Sound timeout m h = give_up-Sound timed_out m h
  handle-Sound cancel m h = give_up-Sound cancelled m h

  constructed-Sound : (url : U) (maximum : ℕ) → Sound (constructed url maximum)
  unfolding constructed
  constructed-Sound url maximum = ground arith

  handle_all-kept :
      (es : List (Happening U)) (m : Downloader U)
      → Sound m
      → Sound (handle_all is_valid scheme same_word resolved es m)
  handle_all-kept [] m h = h
  handle_all-kept (e ∷ es) m h = handle_all-kept es _ (handle-Sound e m h)

  -- After any events, a downloader has emitted downloaded once if it has finished and otherwise
  -- never, success means finished and that there is data, every request went to an acceptable
  -- URL, and there were at most six requests, no more than redirects and one.
  pub constructed-handle_all :
      (es : List (Happening U)) (url : U) (maximum : ℕ)
      → Sound (handle_all is_valid scheme same_word resolved es (constructed url maximum))
  constructed-handle_all es url maximum = handle_all-kept es _ (constructed-Sound url maximum)

  -- The first call of startRequest is owed until its turn has come.
  abbrev pub still_owed : Happening U → Option U → Option U
  still_owed first_turn pending = none
  still_owed (ready_read content) pending = pending
  still_owed (meta_data_changed size) pending = pending
  still_owed (reply_finished id r) pending = pending
  still_owed timeout pending = pending
  still_owed cancel pending = pending

  skipped : (b : Bool) (x y : Downloader U) → b ≡ true → (if b then x else y) ≡ x
  skipped false x y h = absurd (ground (arith, h))
  skipped true x y h = refl

  first_turn_over :
      (pending : Option U) (m : Downloader U)
      → m.finished ≡ true
      → handle is_valid scheme same_word resolved first_turn (record m { pending = pending })
        ≡ record m { pending = none }
  unfolding handle start_request
  first_turn_over none m h = refl
  first_turn_over (some url) m h = skipped m.finished (record m { pending = none }) _ h

  -- Every event leaves a downloader that has finished exactly as it was, but that the pending
  -- first call of startRequest is used up when its turn comes.
  pub finished_for_good :
      (e : Happening U) (m : Downloader U)
      → m.finished ≡ true
      → handle is_valid scheme same_word resolved e m
        ≡ record m { pending = still_owed e m.pending }
  unfolding handle start_request read_available_data meta_data file_downloaded give_up
  finished_for_good first_turn m h = first_turn_over m.pending m h
  finished_for_good (ready_read content) m h = skipped m.finished m _ h
  finished_for_good (meta_data_changed size) m h = skipped m.finished m _ h
  finished_for_good (reply_finished id r) m h =
      skipped (m.finished || not (is_current is_valid scheme same_word resolved id m.reply)) m _
        (ground (arith, h))
  finished_for_good timeout m h = skipped m.finished m _ h
  finished_for_good cancel m h = skipped m.finished m _ h

  -- A timeout or a cancellation, and its message.
  abbrev pub ending : Bool → Happening U
  ending by_user = if by_user then cancel else timeout

  abbrev pub ending_message : Bool → Message
  ending_message by_user = if by_user then cancelled else timed_out

  -- What is reported in the end: the first limit that the last bytes exceed, or why it was given up.
  abbrev pub last_message : Message → ℕ → ℕ → Message
  last_message message maximum size = if ltb maximum size then exceeded maximum else message

  -- If a downloader that has not finished, with a reply under way, meets the timeout or is
  -- cancelled, it aborts exactly this reply, has not finished yet and emits nothing; when that
  -- reply then finishes with an error, it has finished without success, has no reply under way,
  -- has emitted downloaded once more, and reports the timeout or the cancellation, or the limit
  -- that the last bytes exceeded.
  pub give_up_ends :
      (by_user : Bool) (id : ℕ) (r : Reply U) (text : Bytes) (m : Downloader U)
      → m.finished ≡ false
      → m.reply ≡ some id
      → r.error ≡ some text
      → (let m₁ = handle is_valid scheme same_word resolved (ending by_user) m in
          let m₂ = handle is_valid scheme same_word resolved (reply_finished id r) m₁ in
          (m₁.aborted ≡ id ∷ m.aborted)
          × (m₁.finished ≡ false)
          × (m₁.emitted ≡ m.emitted)
          × (m₂.finished ≡ true)
          × (m₂.success ≡ false)
          × (m₂.reply ≡ none)
          × (m₂.emitted ≡ m.emitted + 1)
          × (m₂.error_message
              ≡ some (
                  last_message
                    (ending_message by_user)
                    m.maximum_bytes
                    (length (m.downloaded_data ++ r.remaining)))))
  unfolding handle file_downloaded conclude_reply read_available_data give_up finish_failure
  give_up_ends true id r text m running current failed = ground (arith, running, current, failed)
  give_up_ends false id r text m running current failed = ground (arith, running, current, failed)
