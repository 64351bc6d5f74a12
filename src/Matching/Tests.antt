-- ===== src/Matching/Tests.antt =====
-- Concrete runs of the matching service: one resting ask, one incoming bid, and what holds of them.
use project_final_1team.Prelude.{◌≡◌, refl, sym, false, some, [], ◌∷◌, All, map, take, length}
use project_final_1team.Prelude.Int.{ℤ, pos}
use project_final_1team.Dict
use project_final_1team.Decimal.Whole.{whole}
use project_final_1team.Matching.OrderBook
use project_final_1team.Matching.OrderBook.{
  Side, buy, sell, Order, OrderBook, Execution, Element, all_orders, cancel, insert_resting,
}
use project_final_1team.Matching.OrderBook.Spec.{remove_order, has_order}
use project_final_1team.Matching.OrderBook.Match
use project_final_1team.Matching.OrderBook.Match.{opposite}
use project_final_1team.Matching.OrderBook.Invariant.{
  IsGoodBook, new-IsGoodBook, insert_resting-new, normalized,
}
use project_final_1team.Matching.OrderBook.Invariant.Cancel.{cancel-known}
use project_final_1team.Matching.OrderBook.Priority.{restore_all}
use project_final_1team.Matching.OrderBook.Priority.Rebuild.{rebuilt, Rebuilt, rebuilt-Rebuilt}
use project_final_1team.Matching.OrderBook.Match.Pass.{Fills}
use project_final_1team.Matching.OrderBook.Match.Filling.{
  filling, match_start, match_incoming-Fills,
}
use project_final_1team.Matching.OrderBook.Match.Refine.{Applied, apply-Applied}
use project_final_1team.Matching.OrderBook.Match.Uncrossed.{IsUncrossed, apply-IsUncrossed}
use project_final_1team.Matching.OrderBook.Match.Conservation.{
  total_resting, total_executed, apply-conserves,
}
use project_final_1team.Matching.OrderBook.Match.Executions.{
  IsProper, trade, offer, apply-IsProper, apply-priority,
}
use project_final_1team.Matching.OrderBook.Match.Determined.{SameOrders}

abbrev pub ask : Order ℤ
ask = record {
  order_id = "a1";
  market = "KRW-BTC";
  side = sell;
  price = pos 5;
  quantity = pos 3;
  offset = pos 0;
}

abbrev pub bid : Order ℤ
bid = record {
  order_id = "b1";
  market = "KRW-BTC";
  side = buy;
  price = pos 6;
  quantity = pos 2;
  offset = pos 1;
}

abbrev pub trade_bid : Execution ℤ
trade_bid = record {
  buy_order_id = "b1";
  sell_order_id = "a1";
  market = "KRW-BTC";
  price = pos 5;
  quantity = pos 2;
}

abbrev pub empty_book : OrderBook ℤ
empty_book = OrderBook.new "KRW-BTC"

abbrev pub book : OrderBook ℤ
book = insert_resting empty_book ask

pub ask_is_new : Dict.has "a1" empty_book.elements ≡ false
unfolding OrderBook.new Dict.empty Dict.get
ask_is_new = refl

bid_is_new : Dict.has "b1" book.elements ≡ false
unfolding whole OrderBook.new Dict.empty Dict.get Dict.put Dict.delete insert_resting
bid_is_new = refl

pub book-IsGoodBook : IsGoodBook book
unfolding whole
book-IsGoodBook = (insert_resting-new empty_book ask (new-IsGoodBook "KRW-BTC") refl ask_is_new).0

-- The bid buys two of the three at the price of the ask.
fills_two : (Match.apply book bid).1 ≡ trade_bid ∷ []
unfolding whole OrderBook.new Dict.empty Dict.get Dict.put Dict.delete insert_resting Match.apply
fills_two = refl

apply-Applied_example : Applied book bid (Match.apply book bid)
apply-Applied_example = apply-Applied book bid book-IsGoodBook bid_is_new

match_incoming-Fills_example :
    Fills sell (filling book bid) (match_start book bid) (Match.match_incoming book bid)
match_incoming-Fills_example = match_incoming-Fills book bid book-IsGoodBook

pub book-IsUncrossed : IsUncrossed book
unfolding whole OrderBook.new Dict.empty Dict.get Dict.put Dict.delete insert_resting all_orders
book-IsUncrossed = tt

apply-IsUncrossed_example :
    IsGoodBook (Match.apply book bid).0 × IsUncrossed (Match.apply book bid).0
apply-IsUncrossed_example = apply-IsUncrossed book bid book-IsGoodBook book-IsUncrossed

apply-conserves_example :
    let (book', executions) = Match.apply book bid in
    (total_resting (all_orders sell book)
      ≡ whole.add (total_executed executions) (total_resting (all_orders sell book')))
    × (whole.add (pos 2) (total_resting (all_orders buy book))
        ≡ whole.add (total_executed executions) (total_resting (all_orders buy book')))
unfolding whole
apply-conserves_example = apply-conserves book bid book-IsGoodBook refl bid_is_new

apply-IsProper_example : All (IsProper (normalized bid)) (Match.apply book bid).1
apply-IsProper_example = apply-IsProper book bid book-IsGoodBook bid_is_new

apply-priority_example :
    let executions = (Match.apply book bid).1 in
    map (trade buy) executions ≡ take (length executions) (map offer (all_orders sell book))
apply-priority_example = apply-priority book bid book-IsGoodBook bid_is_new

ask_is_indexed : Dict.get "a1" book.elements ≡ some (record { side = sell; price = pos 5 })
unfolding whole OrderBook.new Dict.empty Dict.get Dict.put insert_resting
ask_is_indexed = refl

cancel-known_example :
    IsGoodBook (cancel book "a1")
    × (all_orders sell (cancel book "a1") ≡ remove_order "a1" (all_orders sell book))
    × (all_orders buy (cancel book "a1") ≡ all_orders buy book)
    × (has_order "a1" (all_orders buy book) ≡ false)
cancel-known_example =
    cancel-known book "a1" (record { side = sell; price = pos 5 }) book-IsGoodBook ask_is_indexed

rebuilt-Rebuilt_example :
    Rebuilt book (rebuilt "KRW-BTC" (all_orders buy book) (all_orders sell book))
rebuilt-Rebuilt_example = rebuilt-Rebuilt "KRW-BTC" book book-IsGoodBook

-- The same book once more, put together by Restore from its lists.
abbrev copy : OrderBook ℤ
copy = rebuilt "KRW-BTC" (all_orders buy book) (all_orders sell book)

copy-SameOrders : SameOrders book copy
unfolding whole OrderBook.new Dict.empty Dict.get Dict.put insert_resting all_orders restore_all
    OrderBook.restore
copy-SameOrders = record {
  good = book-IsGoodBook;
  good' = rebuilt-Rebuilt_again.good;
  market = refl;
  lists = λ side. sym (rebuilt-Rebuilt_again.same side);
}
  where
    rebuilt-Rebuilt_again : Rebuilt book copy
    rebuilt-Rebuilt_again = rebuilt-Rebuilt "KRW-BTC" book book-IsGoodBook
