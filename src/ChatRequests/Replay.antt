-- ===== src/ChatRequests/Replay.antt =====
-- app/chat_idempotency.py and app/routes/chat.py: a retry of a chat request.
use law_review_local.Common.{
  ℕ, ◌-◌, ◌≤◌, String, true, false, Option, none, some, ◌≡◌, refl, arith, str_eq_refl, ◌∙◌, sym,
  inr, ◌⊎◌, inl, Bool, if◌then◌else◌, List, All, ◌∷◌, subst, [],
}
use law_review_local.ChatRequests.{
  ChatLibrary, ChatStore, ChatRow, Moment, begin, began, busy, fresh, RequestStatus, committed,
  in_progress, failed, is_stale, maybe_purge, retention, stale_after, begin_found, write_row,
  new_row, begin_row, claimed_row, cancelled, Begun, stored,
}

module _ {Body : Type 0} (k : ChatLibrary Body) where
  pub row-maybe_purge :
      (c : ℕ) (q : String) (t mono : ℕ) (r : ChatRow) (s : ChatStore)
      → s.rows c q ≡ some r
      → k.before r.updated_at (k.iso (t - retention)) ≡ false
      → (maybe_purge k t mono s).rows c q ≡ some r
  unfolding maybe_purge
  row-maybe_purge c q t mono r s h b = ground arith

  pub tables-maybe_purge :
      (t mono : ℕ) (s : ChatStore)
      → ((maybe_purge k t mono s).messages ≡ s.messages)
        × ((maybe_purge k t mono s).conversations ≡ s.conversations)
  unfolding maybe_purge
  tables-maybe_purge t mono s = ground arith

  -- A row in progress that is not stale refuses the claim, and stays.
  begin-row_busy :
      (c : ℕ) (q : String) (t mono : ℕ) (r : ChatRow) (s : ChatStore)
      → s.rows c q ≡ some r
      → r.status ≡ in_progress
      → is_stale k t r.updated_at ≡ false
      → k.before r.updated_at (k.iso (t - retention)) ≡ false
      → begin k c q t mono s ≡ (record s { last_purge = (maybe_purge k t mono s).last_purge }, busy)
  unfolding begin
  begin-row_busy c q t mono r s h st fr b = rw (row-maybe_purge c q t mono r s h b) (ground arith)

  -- The state of a claimed request.
  abbrev pub Claimed : ℕ → String → ℕ → ChatStore → ChatStore → Type 0
  Claimed c q t s s' =
      (r : ChatRow) × (s'.rows c q ≡ some r)
      × (r.status ≡ in_progress)
      × (r.updated_at ≡ k.iso t)
      × (s'.messages ≡ s.messages)
      × (s'.conversations ≡ s.conversations)

  pub row-write_row :
      (c : ℕ) (q : String) (r : ChatRow) (s : ChatStore) → (write_row c q r s).rows c q ≡ some r
  row-write_row c q r s = ground (arith, str_eq_refl q)

  written-Claimed :
      (c : ℕ) (q : String) (t : ℕ) (r : ChatRow) (s s' : ChatStore)
      → r.status ≡ in_progress
      → r.updated_at ≡ k.iso t
      → write_row c q r s ≡ s'
      → Claimed c q t s s'
  written-Claimed c q t r s s' st up e = rw (← e) (r, row-write_row c q r s, st, up, refl, refl)

  begin_row-Claimed :
      (c : ℕ) (q : String) (t : ℕ) (u s s' : ChatStore) (r : ChatRow) (st : RequestStatus)
      → begin_row k c q t u s r st ≡ (s', began (fresh k))
      → Claimed c q t s s'
  begin_row-Claimed c q t u s s' r committed h = absurd (ground arith)
  begin_row-Claimed c q t u s s' r in_progress h =
      written-Claimed c q t (claimed_row (k.iso t) r) s s' refl refl (ground arith)
  begin_row-Claimed c q t u s s' r failed h =
      written-Claimed c q t (claimed_row (k.iso t) r) s s' refl refl (ground arith)
  begin_row-Claimed c q t u s s' r cancelled h =
      written-Claimed c q t (claimed_row (k.iso t) r) s s' refl refl (ground arith)

  begin_found-Claimed :
      (c : ℕ) (q : String) (t : ℕ) (u s s' : ChatStore) (o : Option ChatRow)
      → begin_found k c q t u s o ≡ (s', began (fresh k))
      → Claimed c q t s s'
  begin_found-Claimed c q t u s s' none h =
      written-Claimed c q t (new_row (k.iso t)) s s' refl refl (ground arith)
  begin_found-Claimed c q t u s s' (some r) h = begin_row-Claimed c q t u s s' r r.status h

  -- A claim leaves a row in progress, dated now, and the tables of the turns alone.
  begin-Claimed :
      (c : ℕ) (q : String) (t mono : ℕ) (s s' : ChatStore)
      → begin k c q t mono s ≡ (s', began (fresh k))
      → Claimed c q t s s'
  unfolding begin
  begin-Claimed c q t mono s s' h =
      let swept : ChatStore = maybe_purge k t mono s in
      let (r, at, st, up, m, v) = begin_found-Claimed c q t _ swept s' (swept.rows c q) h in
      let same = tables-maybe_purge t mono s in (r, at, st, up, m ∙ same.0, v ∙ same.1)

  -- Further claims of a request, each by its time and that of `time.monotonic()`, one after another.
  abbrev pub after_claims : ℕ → String → List (ℕ × ℕ) → ChatStore → ChatStore
  after_claims c q [] s = s
  after_claims c q ((t, mono) ∷ xs) s = after_claims c q xs (begin k c q t mono s).0

  abbrev pub AllBusy : ℕ → String → List (ℕ × ℕ) → ChatStore → Type 0
  AllBusy c q [] s = Unit {0}
  AllBusy c q ((t, mono) ∷ xs) s =
      ((begin k c q t mono s).1 ≡ busy) × AllBusy c q xs (begin k c q t mono s).0

  claims-AllBusy :
      (c : ℕ) (q : String) (r : ChatRow) (xs : List (ℕ × ℕ)) (s : ChatStore)
      → s.rows c q ≡ some r
      → r.status ≡ in_progress
      → All
          (λ (x : ℕ × ℕ).
            (is_stale k x.0 r.updated_at ≡ false)
            × (k.before r.updated_at (k.iso (x.0 - retention)) ≡ false))
          xs
      → AllBusy c q xs s × ((after_claims c q xs s).rows c q ≡ some r)
  claims-AllBusy c q r [] s h st a = (tt, h)
  claims-AllBusy c q r ((t, mono) ∷ xs) s h st ((fr, b), a) =
      let kept : ChatStore = record s { last_purge = (maybe_purge k t mono s).last_purge } in
      let (busy_rest, row) = claims-AllBusy c q r xs kept h st a in
      subst
        (λ (z : ChatStore × Begun Body).
          ((z.1 ≡ busy) × AllBusy c q xs z.0) × ((after_claims c q xs z.0).rows c q ≡ some r))
        (sym (begin-row_busy c q t mono r s h st fr b)) ((refl, busy_rest), row)

  young_claims :
      (m : Moment) (at : String) (xs : List (ℕ × ℕ))
      → k.from_iso at ≡ some m
      → m.zoned ≡ true
      → All
          (λ (x : ℕ × ℕ).
            (x.0 - m.at ≤ stale_after) × (k.before at (k.iso (x.0 - retention)) ≡ false))
          xs
      → All
          (λ (x : ℕ × ℕ).
            (is_stale k x.0 at ≡ false) × (k.before at (k.iso (x.0 - retention)) ≡ false))
          xs
  young_claims m at [] p z a = tt
  young_claims m at (x ∷ xs) p z ((young, b), a) =
      ((unfold is_stale in ground (arith, p, z, young), b), young_claims m at xs p z a)

  -- After a claim of a request, every claim in any sequence of further ones is refused, each made no
  -- more than `stale_after` after the first and before the purge counts the row among the old ones,
  -- with no `finish` or `commit` of the request between them; and in the end the row is the claimed
  -- one, in progress.
  pub begin-once :
      (c : ℕ) (q : String) (t mono : ℕ) (m : Moment) (xs : List (ℕ × ℕ)) (s s' : ChatStore)
      → k.from_iso (k.iso t) ≡ some m
      → m.zoned ≡ true
      → All
          (λ (x : ℕ × ℕ).
            (x.0 - m.at ≤ stale_after) × (k.before (k.iso t) (k.iso (x.0 - retention)) ≡ false))
          xs
      → begin k c q t mono s ≡ (s', began (fresh k))
      → AllBusy c q xs s'
        × ((r : ChatRow) × ((after_claims c q xs s').rows c q ≡ some r)
            × (s'.rows c q ≡ some r)
            × (r.status ≡ in_progress))
  begin-once c q t mono m xs s s' p z young h =
      let (r, at, st, up, x, y) = begin-Claimed c q t mono s s' h in
      let (refused, row) = claims-AllBusy c q r xs s' at st (
        subst
          (λ u.
            All
              (λ (x : ℕ × ℕ).
                (is_stale k x.0 u ≡ false) × (k.before u (k.iso (x.0 - retention)) ≡ false))
              xs)
          (sym up) (young_claims m (k.iso t) xs p z young)) in
      (refused, (r, row, at, st))

  -- The three ends of a claim, with the tables of the turns unchanged.
  pub record Ended (c : ℕ) (q : String) (t : ℕ) (s : ChatStore) (e : ChatStore × Begun Body)
      : Type 0 where
    pub messages : e.0.messages ≡ s.messages
    pub conversations : e.0.conversations ≡ s.conversations
    pub how :
        (e.1 ≡ busy)
        ⊎ (((r : ChatRow) × (e.1 ≡ began (stored k r)))
            ⊎ ((e.1 ≡ began (fresh k)) × Claimed c q t s e.0))

  claimed-Ended :
      (c : ℕ) (q : String) (t : ℕ) (r : ChatRow) (s : ChatStore)
      → r.status ≡ in_progress
      → r.updated_at ≡ k.iso t
      → Ended c q t s (write_row c q r s, began (fresh k))
  claimed-Ended c q t r s st up = record {
    messages = refl;
    conversations = refl;
    how = inr (inr (refl, written-Claimed c q t r s (write_row c q r s) st up refl));
  }

  stale-Ended :
      (c : ℕ) (q : String) (t : ℕ) (u s : ChatStore) (r : ChatRow) (stale : Bool)
      → u.messages ≡ s.messages
      → u.conversations ≡ s.conversations
      → Ended c q t s (
          if stale then (write_row c q (claimed_row (k.iso t) r) s, began (fresh k)) else (u, busy))
  stale-Ended c q t u s r true m v = claimed-Ended c q t (claimed_row (k.iso t) r) s refl refl
  stale-Ended c q t u s r false m v = record { messages = m; conversations = v; how = inl refl }

  begin_row-Ended :
      (c : ℕ) (q : String) (t : ℕ) (u s : ChatStore) (r : ChatRow) (st : RequestStatus)
      → u.messages ≡ s.messages
      → u.conversations ≡ s.conversations
      → Ended c q t s (begin_row k c q t u s r st)
  begin_row-Ended c q t u s r committed m v = record {
    messages = refl;
    conversations = refl;
    how = inr (inl (r, refl));
  }
  begin_row-Ended c q t u s r in_progress m v =
      stale-Ended c q t u s r (is_stale k t r.updated_at) m v
  begin_row-Ended c q t u s r failed m v = claimed-Ended c q t (claimed_row (k.iso t) r) s refl refl
  begin_row-Ended c q t u s r cancelled m v =
      claimed-Ended c q t (claimed_row (k.iso t) r) s refl refl

  begin_found-Ended :
      (c : ℕ) (q : String) (t : ℕ) (u s : ChatStore) (o : Option ChatRow)
      → u.messages ≡ s.messages
      → u.conversations ≡ s.conversations
      → Ended c q t s (begin_found k c q t u s o)
  begin_found-Ended c q t u s none m v = claimed-Ended c q t (new_row (k.iso t)) s refl refl
  begin_found-Ended c q t u s (some r) m v = begin_row-Ended c q t u s r r.status m v

  pub begin-Ended :
      (c : ℕ) (q : String) (t mono : ℕ) (s : ChatStore)
      → Ended c q t (maybe_purge k t mono s) (begin k c q t mono s)
  unfolding begin
  begin-Ended c q t mono s =
      let same = tables-maybe_purge t mono s in
      begin_found-Ended c q t _ _ ((maybe_purge k t mono s).rows c q) (sym same.0) (sym same.1)

  -- A request whose row is committed replays its row, and writes nothing.
  pub begin-replays :
      (c : ℕ) (q : String) (t mono : ℕ) (r : ChatRow) (s : ChatStore)
      → s.rows c q ≡ some r
      → r.status ≡ committed
      → k.before r.updated_at (k.iso (t - retention)) ≡ false
      → begin k c q t mono s ≡ (maybe_purge k t mono s, began (stored k r))
  unfolding begin
  begin-replays c q t mono r s h st b = rw (row-maybe_purge c q t mono r s h b, st)
