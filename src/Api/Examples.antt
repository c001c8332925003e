-- ===== src/Api/Examples.antt =====
-- A lost Google connection, as the client sees it.
use review_signal.Base.{◌≡◌, ◌↔◌, true, codes, nat_eq, list_eq, option_eq}
use review_signal.Api.Errors.{
  google_connection_error, domain, respond, is_internal, http_status, Mapped, respond-Mapped,
}

respond-Mapped_example :
    let r = respond (domain google_connection_error (codes "reconnect")) in
    (r.status_code ≡ http_status r.code)
    × ((r.status_code ≡ 500) ↔ (is_internal r.code ≡ true))
    × Mapped (domain google_connection_error (codes "reconnect")) r
respond-Mapped_example = respond-Mapped (domain google_connection_error (codes "reconnect"))
