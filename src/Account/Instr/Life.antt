-- ===== src/Account/Instr/Life.antt =====
-- src/account/ModInstr.cpp: the life of an order.
use nat_framework.Prelude.{
  ℕ, ℤ, ◌+ℤ◌, ◌-ℤ◌, ◌≡◌, ap, ◌∙◌, ◌==◌, if◌then◌else◌, some, int_laws, arith,
}
use nat_framework.Double.{Double}
use nat_framework.Account.Codes.{buy, sell, open_off, close_today, close_yesterday}
use nat_framework.Account.Vol.{
  UnitVol, on_buy_opn_new, on_buy_opn_cxl, on_buy_opn_trd, on_sell_opn_new, on_sell_opn_cxl,
  on_sell_opn_trd, on_buy_cls_yd_new, on_buy_cls_yd_cxl, on_buy_cls_yd_trd, on_sell_cls_yd_new,
  on_sell_cls_yd_cxl, on_sell_cls_yd_trd, on_buy_cls_td_new, on_buy_cls_td_cxl, on_buy_cls_td_trd,
  on_sell_cls_td_new, on_sell_cls_td_cxl, on_sell_cls_td_trd,
}
use nat_framework.Account.Instr.{Linked, Step, ◌>>◌, on_new, on_cxl, on_trd}
use nat_framework.Account.Instr.Keeps.{Holds}
use nat_framework.Account.Instr.Effect.{
  new_vol, cxl_vol, trd_vol, on_new_vol, on_cxl_vol, on_trd_vol,
}
use nat_framework.Account.Instr.VolRel.{Books, VolRel}
use nat_framework.Account.Instr.Conserve.{new_order, cancel, trade, handler-Books}

-- What an order that traded `n` leaves of the volumes: the positions move by `n`, and nothing is
-- pending.
unfoldable pub filled_vol : ℕ → ℕ → ℤ → UnitVol → UnitVol
filled_vol dir off n v =
    if dir == buy
    then (if off == open_off
        then record v {
          pos_long_td = v.pos_long_td +ℤ n;
          pos_long = v.pos_long +ℤ n;
          pos_buy = v.pos_buy +ℤ n;
        }
        else if off == close_yesterday
        then record v {
          pos_short_yd = v.pos_short_yd -ℤ n;
          pos_short = v.pos_short -ℤ n;
          pos_buy = v.pos_buy +ℤ n;
        }
        else if off == close_today
        then record v {
          pos_short_td = v.pos_short_td -ℤ n;
          pos_short = v.pos_short -ℤ n;
          pos_buy = v.pos_buy +ℤ n;
        }
        else v)
    else if dir == sell
    then (if off == open_off
        then record v {
          pos_short_td = v.pos_short_td +ℤ n;
          pos_short = v.pos_short +ℤ n;
          pos_sell = v.pos_sell +ℤ n;
        }
        else if off == close_yesterday
        then record v {
          pos_long_yd = v.pos_long_yd -ℤ n;
          pos_long = v.pos_long -ℤ n;
          pos_sell = v.pos_sell +ℤ n;
        }
        else if off == close_today
        then record v {
          pos_long_td = v.pos_long_td -ℤ n;
          pos_long = v.pos_long -ℤ n;
          pos_sell = v.pos_sell +ℤ n;
        }
        else v)
    else v

pub settle : (a b c : ℤ) → a +ℤ b -ℤ c -ℤ (b -ℤ c) ≡ a
settle a b c = omega int_laws

life_vol :
    (dir off : ℕ) (vol n : ℤ) (v : UnitVol)
    → cxl_vol dir off (vol -ℤ n) (trd_vol dir off n (new_vol dir off vol v))
      ≡ filled_vol dir off n v
unfolding new_vol cxl_vol trd_vol filled_vol on_buy_opn_new on_buy_opn_cxl on_buy_opn_trd
    on_sell_opn_new on_sell_opn_cxl on_sell_opn_trd on_buy_cls_yd_new on_buy_cls_yd_cxl
    on_buy_cls_yd_trd on_sell_cls_yd_new on_sell_cls_yd_cxl on_sell_cls_yd_trd on_buy_cls_td_new
    on_buy_cls_td_cxl on_buy_cls_td_trd on_sell_cls_td_new on_sell_cls_td_cxl on_sell_cls_td_trd
life_vol dir off vol n v = ground (
  arith,
  settle v.pos_long_td_opn_ing vol n,
  settle v.pos_short_td_opn_ing vol n,
  settle v.pos_long_yd_cls_ing vol n,
  settle v.pos_long_td_cls_ing vol n,
  settle v.pos_short_yd_cls_ing vol n,
  settle v.pos_short_td_cls_ing vol n,
)

module _ {D : Type 0} ⦃F : Double D⦄ where
  chain :
      (f g k : Step D) (c c1 c2 c3 : Linked D)
      → f c ≡ some c1
      → g c1 ≡ some c2
      → k c2 ≡ some c3
      → (f >> (g >> k)) c ≡ some c3
  chain f g k c c1 c2 c3 e1 e2 e3 = ground arith

  -- A new order for `vol`, a trade of `n` and the cancel of the rest.
  unfoldable pub life : ℕ → ℕ → D → ℤ → D → ℤ → Step D
  life dir off px vol trd_px n = do
    on_new dir off px vol
    on_trd dir off px vol n trd_px n
    on_cxl dir off px (vol -ℤ n)

  -- From linked summaries, with volumes that balance and the product's being the instrument's
  -- plus a rest, a new order, a trade of a part of it and the cancel of the remaining volume end
  -- without a fault, and the instrument's volumes are those before with the positions moved by
  -- what was traded and nothing left pending.
  pub life_lem :
      (w : UnitVol) (dir off : ℕ) (px : D) (vol : ℤ) (trd_px : D) (n : ℤ) (c : Linked D)
      → Holds (VolRel (Books w)) c
      → (c' : Linked D) × (life dir off px vol trd_px n c ≡ some c')
        × (c'.instr.unit_vol ≡ filled_vol dir off n c.instr.unit_vol)
  unfolding life
  life_lem w dir off px vol trd_px n c h =
      let (c1, e1, h1, _) = (handler-Books w _ (new_order dir off px vol)).run c h in
      let (c2, e2, h2, _) = (handler-Books w _ (trade dir off px vol n trd_px n)).run c1 h1 in
      let (c3, e3, _, _) = (handler-Books w _ (cancel dir off px (vol -ℤ n))).run c2 h2 in
      (
        c3,
        chain (on_new dir off px vol) (on_trd dir off px vol n trd_px n)
            (on_cxl dir off px (vol -ℤ n)) c c1 c2 c3 e1 e2 e3,
        on_cxl_vol dir off px (vol -ℤ n) c2 c3 e3
            ∙ ap (cxl_vol dir off (vol -ℤ n)) (
                on_trd_vol dir off px vol n trd_px n c1 c2 e2
                ∙ ap (trd_vol dir off n) (on_new_vol dir off px vol c c1 e1))
            ∙ life_vol dir off vol n c.instr.unit_vol,
      )
