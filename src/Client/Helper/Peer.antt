-- ===== src/Client/Helper/Peer.antt =====
-- HelperRoundTripper of meek-client/helper.go with a helper at the other end, whose answer depends on
-- what it is sent: a round tripper for the client's loop.
use meek.Base.{
  ◌≤◌, Bytes, [], ◌∷◌, append-nil, same, none, length, ◌≡◌, ◌≢◌, refl, ap, sym, ◌∙◌, arith,
}
use meek.Go.Errors.{Result, ok}
use meek.Client.Url.{Url}
use meek.Client.Transport.{
  ClientRequest, RequestInfo, RoundTripper, Sink, fill_request, copy_limited, retry_delay,
  round_trip_retries, send_recv, make_request, max_tries, replied,
}
use meek.Client.Retries.{round_trip_retries-first, round_trip_retries-again}
use meek.Client.Helper.{
  HelperRoundTripper, JsonResponse, Json, Socket, frame, read_frame, json_request,
  helper_round_trip, max_helper_response_length, respond, mock_response,
}
use meek.Client.Helper.Laws.{read_frame-frame}

-- A connection that can be dialed and written to.
abbrev pub socket : Bytes → Socket
socket back = record { dial = none; write = none; incoming = back }

pub asked_body {ℓ} :
    {S : Type ℓ} (rt : HelperRoundTripper) (buf : Bytes) (info : RequestInfo S) (u : Url)
    → (json_request rt (fill_request buf info u)).0.body ≡ buf
unfolding json_request fill_request
asked_body rt [] info u = refl
asked_body rt (c ∷ s) info u = refl

again_body {ℓ} :
    {S : Type ℓ} (rt : HelperRoundTripper) (buf : Bytes) (info : RequestInfo S) (u : Url)
    → (json_request rt (json_request rt (fill_request buf info u)).1).0.body ≡ []
unfolding json_request fill_request
again_body rt [] info u = refl
again_body rt (c ∷ s) info u = refl

module _ {S : Type 0} (j : Json) (rt : HelperRoundTripper) (peer : Bytes → S → Bytes × S) where
  -- What the helper is sent does not depend on what it answers.
  unfoldable pub over_helper : RoundTripper S
  over_helper req s =
      let asked = helper_round_trip j rt (socket []) req in
      let (back, s') = peer asked.2 s in
      let done = helper_round_trip j rt (socket back) req in (done.0, done.1, s')

  -- The helper, asked for the request, answers with a text that reads as the response, within the
  -- limit.
  pub record Answers (req : ClientRequest) (s s' : S) (r : JsonResponse) : Type 0 where
    pub enc : Bytes
    pub marshaled : j.marshal (json_request rt req).0 ≡ ok enc
    pub back : Bytes
    pub replies : peer (frame enc) s ≡ (frame back, s')
    pub small : length back ≤ max_helper_response_length
    pub unmarshaled : j.unmarshal back ≡ ok r
    pub no_error : r.error ≡ []

  respond-frame :
      (back : Bytes) (r : JsonResponse)
      → length back ≤ max_helper_response_length
      → j.unmarshal back ≡ ok r
      → respond j (socket (frame back)) ≡ mock_response r
  unfolding respond
  respond-frame back r small e =
      rw (ap read_frame (sym (append-nil (frame back))) ∙ read_frame-frame back [] small, e)

  asked_lem :
      (req : ClientRequest) (back enc : Bytes)
      → j.marshal (json_request rt req).0 ≡ ok enc
      → helper_round_trip j rt (socket back) req
        ≡ (respond j (socket back), (json_request rt req).1, frame enc)
  unfolding helper_round_trip
  asked_lem req back enc e = rw (e, helper_round_trip)

  pub over_helper-Answers :
      (req : ClientRequest) (s s' : S) (r : JsonResponse)
      → Answers req s s' r
      → over_helper req s ≡ (
        ok (record { status_code = r.status; body = record { bytes = r.body; failure = none } }),
        (json_request rt req).1,
        s',
      )
  unfolding over_helper mock_response same
  over_helper-Answers req s s' r a = rw (
    asked_lem req [] a.enc a.marshaled,
    a.replies,
    asked_lem req (frame a.back) a.enc a.marshaled,
    respond-frame a.back r a.small a.unmarshaled,
    a.no_error,
  )

  send_recv_tries :
      (reparse : Url → Result Url) (info : RequestInfo S) (u : Url) (buf : Bytes) (sink : Sink)
      (s : S)
      → info.round_tripper ≡ over_helper
      → reparse info.url ≡ ok u
      → send_recv reparse buf info sink s
        ≡ replied reparse sink
            (round_trip_retries over_helper info.sleep max_tries (fill_request buf info u) s)
  unfolding send_recv make_request
  send_recv_tries reparse info u buf sink s over parsed =
      rw (parsed, make_request, send_recv)
        (ap
          (λ t.
            replied reparse sink
              (round_trip_retries t info.sleep max_tries (fill_request buf info u) s))
          over)

  -- Where the helper answers a request of the loop with a status other than 200 and the one after it,
  -- behind the retry delay, with status 200, the call succeeds, and the second request, which did, had an empty body: the chunk
  -- was only in the first.
  pub send_recv-lost :
      (reparse : Url → Result Url) (info : RequestInfo S) (u : Url) (buf : Bytes) (sink : Sink)
      (s s' s'' : S) (r r' : JsonResponse)
      → info.round_tripper ≡ over_helper
      → reparse info.url ≡ ok u
      → Answers (fill_request buf info u) s s' r
      → r.status ≢ 200
      → Answers (json_request rt (fill_request buf info u)).1 (info.sleep retry_delay s') s'' r'
      → r'.status ≡ 200
      → (send_recv reparse buf info sink s
          ≡ (copy_limited sink (record { bytes = r'.body; failure = none }), s''))
        × ((json_request rt (fill_request buf info u)).0.body ≡ buf)
        × ((json_request rt (json_request rt (fill_request buf info u)).1).0.body ≡ [])
  unfolding replied
  send_recv-lost reparse info u buf sink s s' s'' r r' over parsed a k a' k' = (
    send_recv_tries reparse info u buf sink s over parsed
        ∙ ap (replied reparse sink) (
            round_trip_retries-again over_helper info.sleep 9 (fill_request buf info u) _ s s' _
              (omega arith) (over_helper-Answers (fill_request buf info u) s s' r a) k
            ∙ round_trip_retries-first over_helper info.sleep 9 _ _ (info.sleep retry_delay s') s''
                _
                (over_helper-Answers (json_request rt (fill_request buf info u)).1
                  (info.sleep retry_delay s') s'' r' a')
                k'),
    asked_body rt buf info u,
    again_body rt buf info u,
  )
