-- ===== src/Chat/Latest.antt =====
-- Which of the jobs that come during a cooldown is sent (chat/notification_queue.py).
use wikikracja.Common.{
  ℕ, ◌+◌, ◌*◌, ◌≤◌, ◌<◌, ◌≡◌, refl, ap, ◌∙◌, arith, Bool, true, false, none, some, ◌∷◌, ltb, leb,
  exists_by,
}
use wikikracja.Chat.Queue.{
  Job, Pair, is_cooling, dispatch_or_defer, defer, deliver_due, deliver_if_any, wait_or_deliver,
  deliver_pending, was_delivered, cooldown_seconds,
}

-- The pair after a job was put off.
abbrev pub put_off : Job → ℕ → ℕ → Pair → Pair
put_off job now deadline p = record p {
  pending = some (record { value = job; until = now + cooldown_seconds * 2 });
  delayed = some deadline;
}

defer-put_off :
    (deliver : Job → Bool) (job : Job) (now deadline : ℕ) (p : Pair)
    → is_cooling now p ≡ some deadline
    → (dispatch_or_defer true deliver job now p).1 ≡ put_off job now deadline p
unfolding dispatch_or_defer defer
defer-put_off deliver job now deadline p h = rw h refl

-- A cooldown is over from its deadline on.
cooling-over :
    (now later deadline : ℕ) (p : Pair)
    → is_cooling now p ≡ some deadline
    → deadline ≤ later
    → is_cooling later p ≡ none
cooling-over now later deadline p h b = ground (arith, h, b)

leb-true : (a b : ℕ) → a ≤ b → leb a b ≡ true
leb-true a b h = ground arith

ltb-true : (a b : ℕ) → a < b → ltb a b ≡ true
ltb-true a b h = ground arith

send-pending :
    (deliver : Job → Bool) (job : Job) (t : ℕ) (p : Pair)
    → exists_by (was_delivered t job) p.delivered_keys ≡ false
    → deliver job ≡ true
    → (deliver_pending deliver t job p).1.sent ≡ (job, t) ∷ p.sent
unfolding deliver_pending
send-pending deliver job t p h d = rw h (rw d refl)

due-put_off :
    (deliver : Job → Bool) (job : Job) (now later deadline : ℕ) (p : Pair)
    → is_cooling now p ≡ some deadline
    → deadline ≤ later
    → later < now + 7200
    → deliver_due true deliver later (put_off job now deadline p)
      ≡ deliver_pending deliver later job (put_off job now deadline p)
unfolding deliver_due deliver_if_any wait_or_deliver
due-put_off deliver job now later deadline p h b c =
    rw (leb-true deadline later b)
      (rw (ltb-true later (now + 7200) c) (rw (cooling-over now later deadline p h b) refl))

-- A job that comes during the cooldown takes the place of the one that waits; on the first round that
-- finds the lock free after the cooldown and within two hours, it is the job that is sent, once, if it
-- was not sent before and sending succeeds.
pub dispatch_or_defer-deliver_due :
    (deliver : Job → Bool) (job : Job) (now later deadline : ℕ) (p : Pair)
    → is_cooling now p ≡ some deadline
    → deadline ≤ later
    → later < now + 7200
    → exists_by (was_delivered later job) p.delivered_keys ≡ false
    → deliver job ≡ true
    → (deliver_due true deliver later (dispatch_or_defer true deliver job now p).1).1.sent
      ≡ (job, later) ∷ p.sent
dispatch_or_defer-deliver_due deliver job now later deadline p h b c d e =
    ap (λ q. (deliver_due true deliver later q).1.sent) (defer-put_off deliver job now deadline p h)
    ∙ ap (λ q. q.1.sent) (due-put_off deliver job now later deadline p h b c)
    ∙ send-pending deliver job later (put_off job now deadline p) d e
