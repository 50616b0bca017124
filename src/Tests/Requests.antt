-- ===== src/Tests/Requests.antt =====
-- A client's subscription, served over the market and the Coinbase feed.
use quote_server.Base.{String, ◌≡◌, ◌⊎◌, refl, true, ok}
use quote_server.Base.Dict
use quote_server.EndpointService
use quote_server.ClientService.{
  replied, handle_message, handle_parsed, handle_json, dispatch, subscribe_request, subscribe_ids,
  request_error, confirmation, insert, count,
}
use quote_server.CoinbaseFeedClient
use quote_server.CoinbaseFeedClient.{coinbase_feed, set_trade_listener}
use quote_server.FeedProduct.{new_feed_product}
use quote_server.WebsocketTransport
use quote_server.Market
use quote_server.Market.{market_subscriber, subscribe_feed}
use quote_server.System.{new_system, Reach, start}
use quote_server.System.Requests.{IsCarriedOut, handle_message-IsCarriedOut}
use quote_server.Tests.Messages.{plain, text_floating}
use quote_server.Tests.Service.{service_json, endpoints, service, accepted}
use quote_server.Tests.Whole.{subscribed}

served :
    handle_message
      (market_subscriber {F = String} ⦃feed = coinbase_feed (λ uri. true)⦄)
      endpoints
      "u2"
      "complete"
      service
      (new_system {F = String})
    ≡ ok (replied accepted, service, subscribed)
unfolding handle_message handle_parsed handle_json dispatch subscribe_request subscribe_ids
    request_error EndpointService.contains confirmation insert EndpointService.to_string
    EndpointService.prod_id_to_port count Dict.find Market.subscribe subscribe_feed
    CoinbaseFeedClient.subscribe new_feed_product Dict.insert Dict.assign set_trade_listener
    CoinbaseFeedClient.connect_once WebsocketTransport.send WebsocketTransport.connect
    WebsocketTransport.subscribe CoinbaseFeedClient.generate_subscribe_message
    CoinbaseFeedClient.request_message
served = refl

handle_message-IsCarriedOut_example :
    Reach plain (λ uri. true) new_system subscribed
    × ((subscribed ≡ new_system)
        ⊎ IsCarriedOut plain (λ uri. true) service endpoints new_system subscribed)
handle_message-IsCarriedOut_example =
    handle_message-IsCarriedOut plain (λ uri. true) endpoints "u2" "complete" service service
      new_system subscribed (replied accepted) start served
