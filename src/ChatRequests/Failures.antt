-- ===== src/ChatRequests/Failures.antt =====
-- app/routes/chat.py, `case_chat`: a turn that fails.
use law_review_local.ChatRequests.Replay.{Ended, begin-Ended, tables-maybe_purge, row-write_row}
use law_review_local.ChatRequests.{
  stored, began, busy, fresh, ChatLibrary, finish, ChatStore, ChatRow, in_progress, failed, Begun,
  begin, finished_row, maybe_purge,
}
use law_review_local.ChatRequests.Turns.{
  replayed_body, body_of, refused, chat_turn, Turn, Draft, marked, fault, done, TurnRecord,
  chat_reply, record_turn, case_chat, after_begin,
}
use law_review_local.Common.{
  ℕ, String, Option, ◌≡◌, some, ap, arith, false, ◌⊎◌, ◌∙◌, refl, sym, inl, inr,
}

module _ {Body : Type 0} (k : ChatLibrary Body) where
  -- The row of the request may be claimed at any time.
  abbrev Free : ℕ → String → ChatStore → Type 0
  Free c q s = (r : ChatRow) × (s.rows c q ≡ some r) × (r.status ≡ failed)

  abbrev Undone : ℕ → String → ChatStore → ChatStore → Type 0
  Undone c q s s' = (s'.messages ≡ s.messages) × (s'.conversations ≡ s.conversations) × Free c q s'

  marked-Undone :
      (c : ℕ) (q : String) (u : ℕ) (s : ChatStore) (r : ChatRow)
      → s.rows c q ≡ some r
      → r.status ≡ in_progress
      → Undone c q s (marked k (some (c, q)) failed u s)
  unfolding finish
  marked-Undone c q u s r h st = rw h (
    refl,
    refl,
    (
      finished_row k failed (k.iso u) r r.status,
      row-write_row k c q (finished_row k failed (k.iso u) r r.status) s,
      ap (λ z. (finished_row k failed (k.iso u) r z).status) st,
    ),
  )

  chat_turn-Undone :
      (c : ℕ) (q : String) (v : Option ℕ) (d : Turn (Draft Body)) (u n : ℕ) (s s' : ChatStore)
      (r : ChatRow)
      → s.rows c q ≡ some r
      → r.status ≡ in_progress
      → chat_turn k c v (some (c, q)) d u s ≡ (s', refused n)
      → Undone c q s s'
  unfolding chat_turn
  chat_turn-Undone c q v (fault f) u n s s' r h st e =
      rw (← ap (λ y. y.0) e) (marked-Undone c q u s r h st)
  chat_turn-Undone c q v (done d) u n s s' r h st e =
      chat_reply-Undone (record_turn k c v d (some (c, q)) false u s) e
    where
      chat_reply-Undone :
          (m : Turn (ChatStore × TurnRecord))
          → chat_reply k (some (c, q)) d u s m ≡ (s', refused n)
          → Undone c q s s'
      chat_reply-Undone (done (s1, x)) e = absurd (ground arith)
      chat_reply-Undone (fault f) e = rw (← ap (λ y. y.0) e) (marked-Undone c q u s r h st)

  after_begin-Refused :
      (c : ℕ) (q : String) (v : Option ℕ) (d : Turn (Draft Body)) (t u n : ℕ) (s s' : ChatStore)
      (e : ChatStore × Begun Body)
      → Ended k c q t s e
      → after_begin k c v q d u e ≡ (s', refused n)
      → (s'.messages ≡ s.messages)
        × (s'.conversations ≡ s.conversations)
        × ((e.1 ≡ busy) ⊎ Free c q s')
  after_begin-Refused c q v d t u n s s' (s1, o) end h =
      let at : (o' : Begun Body) → o ≡ o' → after_begin k c v q d u (s1, o') ≡ (s', refused n) =
        λ o' e. sym (ap (λ z. after_begin k c v q d u (s1, z)) e) ∙ h in
      elim end.how [
        | inl e ↦
            let same : s1 ≡ s' = ap (λ y. y.0) (at busy e) in
            (rw (← same) end.messages, rw (← same) end.conversations, inl e)
        | inr (inl (r, e)) ↦
            let bad : replayed_body (body_of k (stored k r)) ≡ refused n =
              ap (λ y. y.1) (at (began (stored k r)) e) in
            absurd (ground (arith, bad))
        | inr (inr (e, cl)) ↦
            let (r, found, st, up, ms, vs) = cl in
            let (m, w, free) =
              chat_turn-Undone c q v d u n s1 s' r found st (at (began (fresh k)) e) in
            (m ∙ end.messages, w ∙ end.conversations, inr free)
      ]

  begin-Free :
      (c : ℕ) (q : String) (t mono : ℕ) (s : ChatStore)
      → Free c q s
      → (begin k c q t mono s).1 ≡ began (fresh k)
  unfolding begin maybe_purge
  begin-Free c q t mono s (r, h, st) = ground arith

  -- A submission that is refused or fails writes neither a message nor a conversation; and unless
  -- it was the duplicate of a request in progress, its id may be claimed afresh at any later time.
  pub case_chat-refused :
      (c : ℕ) (q : String) (v : Option ℕ) (d : Turn (Draft Body)) (t mono u n : ℕ)
      (s s' : ChatStore)
      → case_chat k c v (some q) d t mono u s ≡ (s', refused n)
      → (s'.messages ≡ s.messages)
        × (s'.conversations ≡ s.conversations)
        × (((begin k c q t mono s).1 ≡ busy)
            ⊎ ((t' mono' : ℕ) → (begin k c q t' mono' s').1 ≡ began (fresh k)))
  unfolding case_chat
  case_chat-refused c q v d t mono u n s s' h =
      let (m, w, how) =
        after_begin-Refused c q v d t u n (maybe_purge k t mono s) s' (begin k c q t mono s)
          (begin-Ended k c q t mono s) h in
      let same = tables-maybe_purge k t mono s in
      (
        m ∙ same.0,
        w ∙ same.1,
        elim how [ inl e ↦ inl e | inr free ↦ inr (λ t' mono'. begin-Free c q t' mono' s' free) ],
      )
