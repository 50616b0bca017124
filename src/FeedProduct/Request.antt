-- ===== src/FeedProduct/Request.antt =====
-- CoinbaseFeedProduct::requestFullOrderBookImpl with its call of RestTransport::request.
use quote_server.Base.{String, ◌<>◌, ◌≡◌, refl, ◌⊎◌, inl, inr, Result, ok}
use quote_server.Json.{Json}
use quote_server.RestTransport.{Transfer, logic_error, runtime_error, request}
use quote_server.FeedProduct.{FeedProduct, give_up, request_full_order_book_impl}

unfoldable pub book_address : String → String
book_address product_id = "https://api.pro.coinbase.com/products/" <> product_id <> "/book?level=3"

module _ {J : Type 0} ⦃json : Json J⦄ (perform : String → Transfer) where
  -- The whole body of the request thread.
  unfoldable pub request_book : FeedProduct J → Result (FeedProduct J)
  request_book p = request_full_order_book_impl (request perform (book_address p.product_id)) p

  -- A transfer that fails in either way makes the thread give up.
  pub request_book-failed :
      (p : FeedProduct J)
      → (perform (book_address p.product_id) ≡ logic_error)
        ⊎ (perform (book_address p.product_id) ≡ runtime_error)
      → request_book p ≡ ok (give_up p)
  unfolding request_book request request_full_order_book_impl
  request_book-failed p (inl e) = rw (e, request) refl
  request_book-failed p (inr e) = rw (e, request) refl
