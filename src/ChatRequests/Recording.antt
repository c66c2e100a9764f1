-- ===== src/ChatRequests/Recording.antt =====
-- app/routes/chat.py, `case_chat`, and `record_turn_with_id`: what a fresh answer writes.
use law_review_local.Common.{
  ℕ, ◌+◌, String, false, Option, none, some, ◌≡◌, refl, arith, List, ◌∷◌, [], ◌++◌, ◌⊎◌, inl, inr,
  str_eq_refl, find?, ◌∙◌, ap, sym,
}
use law_review_local.ChatRequests.{
  stored, began, busy, fresh, ChatLibrary, ChatStore, ChatRow, commit, committed, Message,
  Conversation, committed_row, write_row, Begun, maybe_purge, begin,
}
use law_review_local.ChatRequests.Replay.{Ended, begin-Ended}
use law_review_local.ChatRequests.Turns.{
  replayed_body, after_begin, Draft, Turn, TurnRecord, done, fault, chat_turn, record_turn,
  conversation_for, write_messages, fresh_body, asked, answered, ran, open_conversation, write_turn,
  write_in, Fault, chat_reply, case_chat, body_of,
}
use law_review_local.ChatRequests.Replay.{begin-Ended}

ran-none : (ms : List Message) → find? (ran none) ms ≡ none
ran-none [] = refl
ran-none (m ∷ ms) = ran-none ms

Turn-cases {ℓ} :
    {A : Type ℓ} (m : Turn A) → ((a : A) × (m ≡ done a)) ⊎ ((f : Fault) × (m ≡ fault f))
Turn-cases (done a) = inl (a, refl)
Turn-cases (fault f) = inr (f, refl)

done_inj {ℓ} : {A : Type ℓ} {a b : A} → done a ≡ done b → a ≡ b
done_inj h = cc

module _ {Body : Type 0} (k : ChatLibrary Body) where
  opened :
      (c : ℕ) (o : Option Conversation) (s s' : ChatStore) (w : ℕ)
      → open_conversation c o s ≡ done (s', w)
      → (s'.rows ≡ s.rows) × (s'.messages ≡ s.messages)
  opened c none s s' w h = cc h
  opened c (some v) s s' w h = let e : s' ≡ s = ground arith in rw e (refl, refl)

  conversation_for-tables :
      (c : ℕ) (v : Option ℕ) (d : Draft Body) (s s' : ChatStore) (w : ℕ)
      → conversation_for k c v d s ≡ done (s', w)
      → (s'.rows ≡ s.rows) × (s'.messages ≡ s.messages)
  unfolding conversation_for
  conversation_for-tables c none d s s' w h = (ground arith, ground arith)
  conversation_for-tables c (some v) d s s' w h = opened c _ s s' w h

  abbrev pub turn_messages : Draft Body → TurnRecord → String → ℕ → List Message
  turn_messages d r ts i =
      asked k d r.conversation_id ts i ∷ answered k d r.conversation_id ts (i + 1) ∷ []

  -- What a recorded turn of a claimed request leaves.
  abbrev pub Recorded : ℕ → String → Draft Body → ℕ → ChatStore → ChatStore → TurnRecord → Type 0
  Recorded c q d t s s' r =
      (row : ChatRow) × (i : ℕ) × (s'.rows c q ≡ some row)
      × (row.status ≡ committed)
      × (row.result_json ≡ some (k.dumps (d.result r.conversation_id r.message_id)))
      × (row.updated_at ≡ k.iso t)
      × (s'.messages ≡ s.messages ++ turn_messages d r (k.iso t) i)

  write_turn-Recorded :
      (c : ℕ) (q : String) (d : Draft Body) (t w : ℕ) (s s' : ChatStore) (row : ChatRow)
      (r : TurnRecord)
      → s.rows c q ≡ some row
      → write_turn k (some (c, q)) d t w s none ≡ (s', r)
      → Recorded c q d t s s' r
  unfolding commit write_messages
  write_turn-Recorded c q d t w s s' row r h e =
      let i : ℕ = s.next_message + 1 in
      let row' : ChatRow =
        committed_row k (some w) (some i) (k.dumps (d.result w (some i))) (k.iso t) row in
      let at : write_row c q row' (write_messages k d w (k.iso t) s) ≡ s' = ground arith in
      let ids : record { conversation_id = w; message_id = some i } ≡ r = ground arith in
      rw (← at, ← ids) (row', s.next_message, ground (arith, str_eq_refl q), refl, refl, refl, refl)

  write_in-Recorded :
      (c : ℕ) (q : String) (d : Draft Body) (t : ℕ) (v : Option ℕ) (s s' : ChatStore)
      (row : ChatRow) (r : TurnRecord)
      → s.rows c q ≡ some row
      → d.source_run_id ≡ none
      → write_in k (some (c, q)) d t (conversation_for k c v d s) ≡ done (s', r)
      → Recorded c q d t s s' r
  write_in-Recorded c q d t v s s' row r h n e = elim (Turn-cases (conversation_for k c v d s)) [
    | inl (x, out) ↦
        let new : find? (ran d.source_run_id) x.0.messages ≡ none =
          ap (λ o. find? (ran o) x.0.messages) n ∙ ran-none x.0.messages in
        let last : done (write_turn k (some (c, q)) d t x.1 x.0 none) ≡ done (s', r) =
          sym (ap (λ o. done (write_turn k (some (c, q)) d t x.1 x.0 o)) new)
          ∙ (sym (ap (write_in k (some (c, q)) d t) out) ∙ e) in
        let same = conversation_for-tables c v d s x.0 x.1 out in
        let (row', i, at, st, js, up, ms) =
          write_turn-Recorded c q d t x.1 x.0 s' row r (rw same.0 h) (done_inj last) in
        (row', i, at, st, js, up, ms ∙ ap (λ l. l ++ turn_messages d r (k.iso t) i) same.1)
    | inr (f, out) ↦ absurd (ground (arith, out))
  ]

  record_turn-Recorded :
      (c : ℕ) (q : String) (d : Draft Body) (t : ℕ) (v : Option ℕ) (s s' : ChatStore)
      (row : ChatRow) (r : TurnRecord)
      → s.rows c q ≡ some row
      → d.source_run_id ≡ none
      → record_turn k c v d (some (c, q)) false t s ≡ done (s', r)
      → Recorded c q d t s s' r
  unfolding record_turn
  record_turn-Recorded c q d t v s s' row r h n e =
      write_in-Recorded c q d t v s s' row r h n (ground arith)

  -- What a fresh answer of `case_chat` leaves.
  abbrev pub Answered : ℕ → String → Draft Body → ℕ → ChatStore → ChatStore → Body → Type 0
  Answered c q d u s s' b =
      (r : TurnRecord) × (d.result r.conversation_id r.message_id ≡ b) × Recorded c q d u s s' r

  chat_reply-Answered :
      (c : ℕ) (q : String) (v : Option ℕ) (d : Draft Body) (u : ℕ) (s s' : ChatStore)
      (row : ChatRow) (b : Body) (m : Turn (ChatStore × TurnRecord))
      → m ≡ record_turn k c v d (some (c, q)) false u s
      → s.rows c q ≡ some row
      → d.source_run_id ≡ none
      → chat_reply k (some (c, q)) d u s m ≡ (s', fresh_body b)
      → Answered c q d u s s' b
  chat_reply-Answered c q v d u s s' row b (done (s1, r)) from h n e =
      let same : s1 ≡ s' = ground arith in
      (r, ground arith, rw (← same) (record_turn-Recorded c q d u v s s1 row r h n (sym from)))
  chat_reply-Answered c q v d u s s' row b (fault f) from h n e = absurd (ground arith)

  chat_turn-Answered :
      (c : ℕ) (q : String) (v : Option ℕ) (d : Draft Body) (u : ℕ) (s s' : ChatStore)
      (row : ChatRow) (b : Body)
      → s.rows c q ≡ some row
      → d.source_run_id ≡ none
      → chat_turn k c v (some (c, q)) (done d) u s ≡ (s', fresh_body b)
      → Answered c q d u s s' b
  unfolding chat_turn
  chat_turn-Answered c q v d u s s' row b h n e =
      chat_reply-Answered c q v d u s s' row b _ refl h n e

  after_begin-Answered :
      (c : ℕ) (q : String) (v : Option ℕ) (d : Draft Body) (t u : ℕ) (s s' : ChatStore) (b : Body)
      (e : ChatStore × Begun Body)
      → Ended k c q t s e
      → d.source_run_id ≡ none
      → after_begin k c v q (done d) u e ≡ (s', fresh_body b)
      → Answered c q d u s s' b
  after_begin-Answered c q v d t u s s' b (s1, o) end n h =
      let at : (o' : Begun Body)
          → o ≡ o'
          → after_begin k c v q (done d) u (s1, o') ≡ (s', fresh_body b) =
        λ o' e. sym (ap (λ z. after_begin k c v q (done d) u (s1, z)) e) ∙ h in
      elim end.how [
        | inl e ↦ absurd (cc (at busy e))
        | inr (inl (r, e)) ↦
            let bad : replayed_body (body_of k (stored k r)) ≡ fresh_body b =
              ap (λ y. y.1) (at (began (stored k r)) e) in
            absurd (ground (arith, bad))
        | inr (inr (e, cl)) ↦
            let (r, found, st, up, ms, vs) = cl in
            let (x, is, (row, i, at', st', js, up', ms)) =
              chat_turn-Answered c q v d u s1 s' r b found n (at (began (fresh k)) e) in
            (
              x,
              is,
              (
                row,
                i,
                at',
                st',
                js,
                up',
                ms ∙ ap (λ l. l ++ turn_messages d x (k.iso u) i) end.messages,
              ),
            )
      ]

  pub case_chat-Answered :
      (c : ℕ) (q : String) (v : Option ℕ) (d : Draft Body) (t mono u : ℕ) (s s' : ChatStore)
      (b : Body)
      → d.source_run_id ≡ none
      → case_chat k c v (some q) (done d) t mono u s ≡ (s', fresh_body b)
      → Answered c q d u (maybe_purge k t mono s) s' b
  unfolding case_chat
  case_chat-Answered c q v d t mono u s s' b n h =
      after_begin-Answered c q v d t u (maybe_purge k t mono s) s' b (begin k c q t mono s)
        (begin-Ended k c q t mono s) n h
