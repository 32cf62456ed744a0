-- ===== src/Td/Fake/Reach.antt =====
-- src/td/ITDHelper.cpp and src/td/CTDHelperFake.cpp: the calls as steps, and what becomes of a
-- client and its market.
use Prim.Native.String.{String}
use mathlib.Core.Path.{subst}
use nat_framework.Prelude.{
  ℕ, suc, zero, ◌≤◌, ℤ, pos, ◌≤ℤ◌, ◌≡◌, ◌∙◌, refl, sym, arith, +ℤ_zero, Option, some, List, [], ◌∷◌,
}
use nat_framework.Prelude.Lists.{length, get_elem?}
use nat_framework.Double.{Double}
use nat_framework.TradeBase.{OrderTrack, RtnMsg}
use nat_framework.Td.Fake.{HelperFake, MarketData, empty}
use nat_framework.Td.Fake.Calls.{send_order, delete_order, get_rtn, on_tick, on_switch_day}
use nat_framework.Td.Fake.Auction.{pending}
use nat_framework.Td.Fake.Moved.{Linked, Told}
use nat_framework.Td.Fake.Links.{EndsLinked, send_order-Linked}
use nat_framework.Td.Fake.Answers.{
  delete_order-Linked, get_rtn-Linked, get_rtn_lem, get_rtn_empty, next_track,
}
use nat_framework.Td.Fake.Ticks.{on_tick-Linked}

module _ {D : Type 0} ⦃F : Double D⦄ where
  -- A call within a trading day, and the state that it leaves. A fault leaves none.
  pub data Call (s : HelperFake D) : HelperFake D → Type 0 where
    sent :
        {s' : HelperFake D} (instr : String) (price : D) (vol : ℤ) (dir off : ℕ) (acc_id stg_id : ℤ)
        (h : ℕ)
        → pos 0 ≤ℤ vol
        → (send_order instr price vol dir off acc_id stg_id h s).0 ≡ some s'
        → Call s s'
    deleted : {s' : HelperFake D} (id : ℕ) → (delete_order id s).0 ≡ some s' → Call s s'
    answered : {s' : HelperFake D} → (get_rtn s).0 ≡ s' → Call s s'
    ticked : {s' : HelperFake D} (md : MarketData D) → on_tick md s ≡ some s' → Call s s'

  -- What a new client and market can become: calls, and changes of the day once every message was
  -- taken.
  pub data Reach : HelperFake D → Type 0 where
    start : Reach empty
    call : {s s' : HelperFake D} → Reach s → Call s s' → Reach s'
    day : {s : HelperFake D} → Reach s → s.rtn_msg_queue ≡ [] → Reach (on_switch_day s)

  some-injective : (a b : HelperFake D) → some a ≡ some b → a ≡ b
  some-injective a b e = cc

  same_end :
      {s' : HelperFake D} (r : Option (HelperFake D)) → EndsLinked r → r ≡ some s' → Linked s'
  same_end {s'} r (c, e, l) e' = subst Linked (some-injective c s' (sym e ∙ e')) l

  pub Call-Linked : {s s' : HelperFake D} → Call s s' → Linked s → Linked s'
  Call-Linked {s} (sent instr price vol dir off acc_id stg_id h v e) l =
      same_end _ (send_order-Linked instr price vol dir off acc_id stg_id h s l v) e
  Call-Linked {s} (deleted id e) l = same_end _ (delete_order-Linked id s l) e
  Call-Linked {s} (answered e) l = subst Linked e (get_rtn-Linked s s.rtn_msg_queue refl l)
  Call-Linked {s} (ticked md e) l = same_end _ (on_tick-Linked md s l) e

  empty-Linked : Linked {D = D} empty
  empty-Linked = record {
    same = refl;
    open_ids = λ id h. absurd (ground arith);
    known = tt;
    told = λ id t e a b. cc;
  }

  on_switch_day-Linked : (s : HelperFake D) → s.rtn_msg_queue ≡ [] → Linked (on_switch_day s)
  unfolding on_switch_day
  on_switch_day-Linked s q = record {
    same = refl;
    open_ids = λ id h. absurd (ground arith);
    known = rw (q) tt;
    told = λ id t e a b. cc;
  }

  -- In every state of a client and the simulated market that calls reach from a new one, with
  -- orders of no negative volume and the day changed only once every message was taken, the two
  -- sides hold the same number of orders, only known orders are queued, every waiting message is
  -- about a known order, and for each order the market's traded volume is the client's plus that
  -- of the executions still waiting, and lies between 0 and the order's volume.
  pub Reach-Linked : {s : HelperFake D} → Reach s → Linked s
  Reach-Linked start = empty-Linked
  Reach-Linked (call r c) = Call-Linked c (Reach-Linked r)
  Reach-Linked (day {s} r q) = on_switch_day-Linked s q

  -- From linked tracks no call faults: sending an order of no negative volume, canceling any
  -- order and any tick each end in a state with linked tracks, and where a message waits, the
  -- client is handed the first.
  pub calls_total :
      (s : HelperFake D)
      → Linked s
      → ((instr : String) (price : D) (vol : ℤ) (dir off : ℕ) (acc_id stg_id : ℤ) (h : ℕ)
          → pos 0 ≤ℤ vol
          → EndsLinked (send_order instr price vol dir off acc_id stg_id h s).0)
        × ((id : ℕ) → EndsLinked (delete_order id s).0)
        × ((md : MarketData D) → EndsLinked (on_tick md s))
        × ((p : RtnMsg D) (rest : List (RtnMsg D))
            → s.rtn_msg_queue ≡ p ∷ rest
            → (get_rtn s).1 ≡ some p)
  calls_total s l = (
    (λ instr price vol dir off acc_id stg_id h v.
        send_order-Linked instr price vol dir off acc_id stg_id h s l v),
    (λ id. delete_order-Linked id s l),
    (λ md. on_tick-Linked md s l),
    (λ p rest q. (let (t, et) = next_track s p rest q l in rw (get_rtn_lem p rest t s q et) refl)),
  )

  -- The client takes `n` messages.
  abbrev pub take_rtns : ℕ → HelperFake D → HelperFake D
  take_rtns zero s = s
  take_rtns (suc n) s = take_rtns n (get_rtn s).0

  -- Every order's volume is known to the client as it is to the market.
  abbrev pub InStep : HelperFake D → Type 0
  InStep s =
      (id : ℕ) (t e : OrderTrack D)
      → get_elem? s.order_track id ≡ some t
      → get_elem? s.eng_order_track id ≡ some e
      → (t.vol_traded ≡ e.vol_traded) × (t.vol_traded ≤ℤ t.vol)

  drained-InStep : (s : HelperFake D) → s.rtn_msg_queue ≡ [] → Linked s → InStep s
  drained-InStep s q l id t e et ee =
      let h : Told t e (pos 0) = subst (λ ms. Told t e (pending id ms)) q (l.told id t e et ee) in
      let same = h.traded ∙ +ℤ_zero t.vol_traded in
      (sym same, subst (λ n. n ≤ℤ t.vol) same (subst (λ n. e.vol_traded ≤ℤ n) h.vol h.bounded))

  get_rtn-eng : (s : HelperFake D) → (get_rtn s).0.eng_order_track ≡ s.eng_order_track
  unfolding get_rtn
  get_rtn-eng s = ground arith

  get_rtn-shorter :
      (s : HelperFake D) (n : ℕ) (ms : List (RtnMsg D))
      → s.rtn_msg_queue ≡ ms
      → Linked s
      → length ms ≤ suc n
      → length (get_rtn s).0.rtn_msg_queue ≤ n
  get_rtn-shorter s n [] q l b = rw (get_rtn_empty s q, q) omega arith
  get_rtn-shorter s n (p ∷ rest) q l b =
      let (t, et) = next_track s p rest q l in rw (get_rtn_lem p rest t s q et) omega arith

  no_messages : (ms : List (RtnMsg D)) → length ms ≤ 0 → ms ≡ []
  no_messages [] b = refl
  no_messages (m ∷ ms) b = absurd (omega arith)

  take_rtns-drains :
      (n : ℕ) (s : HelperFake D)
      → Linked s
      → length s.rtn_msg_queue ≤ n
      → Linked (take_rtns n s)
        × ((take_rtns n s).rtn_msg_queue ≡ [])
        × ((take_rtns n s).eng_order_track ≡ s.eng_order_track)
  take_rtns-drains zero s l b = (l, no_messages s.rtn_msg_queue b, refl)
  take_rtns-drains (suc n) s l b =
      let (l', q, e) =
        take_rtns-drains n (get_rtn s).0 (get_rtn-Linked s s.rtn_msg_queue refl l)
          (get_rtn-shorter s n s.rtn_msg_queue refl l b) in
      (l', q, e ∙ get_rtn-eng s)

  -- In every such state, a client that takes at least as many messages as wait empties the queue,
  -- then knows of every order the traded volume that the market knows, which is at most the
  -- order's volume, and the market's orders have not changed.
  pub take_rtns-InStep :
      (s : HelperFake D)
      → Reach s
      → (n : ℕ) → length s.rtn_msg_queue ≤ n
      → ((take_rtns n s).rtn_msg_queue ≡ [])
        × InStep (take_rtns n s)
        × ((take_rtns n s).eng_order_track ≡ s.eng_order_track)
  take_rtns-InStep s r n b =
      let (l, q, e) = take_rtns-drains n s (Reach-Linked r) b in
      (q, drained-InStep (take_rtns n s) q l, e)
