-- ===== src/Client/Talk.antt =====
-- One exchange of a client with a server that has its answer on the connection, and a writer that
-- does not fail.
use gomemcached.Prelude.{
  ◌≤◌, ◌≡◌, ◌++◌, refl, sym, ap, Bool, true, false, not, none, some, List, [], ◌∷◌, Bytes, length,
}
use gomemcached.Io.{IoError, Writer}
use gomemcached.Wire.Layout.{hdr_len}
use gomemcached.Wire.Status
use gomemcached.Wire.Request.{McRequest}
use gomemcached.Wire.Request.Encoding as RequestEncoding
use gomemcached.Wire.Request.Delivery.{request_transmit_unlimited}
use gomemcached.Wire.Response.{McResponse, is_fatal, empty_response}
use gomemcached.Wire.Response.Encoding.{wire}
use gomemcached.Wire.Response.Decoding.{Fits, response_receive-wire}
use gomemcached.Client.{Client, send, get_response, get_response_from, response_error}
use gomemcached.Client.Sending.{send_receives, failure}

-- A client in front of some bytes.
abbrev pub client_at : Bytes → IoError → Writer → Bytes → Client
client_at input e w hdr_buf = record {
  conn = some (record { reader = record { input = input; ending = e }; writer = w });
  healthy = true;
  hdr_buf = hdr_buf;
}

-- A response that can be received as it is sent.
pub record IsAnswer (res : McResponse) : Type 0 where
  pub fits : Fits res
  pub fatal : res.fatal ≡ false

-- The client behind an exchange.
abbrev pub behind : Bytes → IoError → Writer → Bytes → McRequest → McResponse → Client
behind rest e w hdr_buf req res =
    record (client_at rest e (record w { sent = w.sent ++ RequestEncoding.wire req }) hdr_buf) {
      healthy = not (is_fatal (failure res));
    }

pub send_answered :
    (c : Client) (req : McRequest) (res : McResponse) (rest : Bytes) (e : IoError) (w : Writer)
    → IsAnswer res
    → w.room ≡ none
    → length c.hdr_buf ≤ hdr_len
    → c.conn
      ≡ some (record { reader = record { input = wire res ++ rest; ending = e }; writer = w })
    → send c req
      ≡ some
          (record { res = some res; err = failure res; client = behind rest e w c.hdr_buf req res })
send_answered c req res rest e w a free short k =
    let (n, t) = request_transmit_unlimited req w free in
    send_receives c req res w _ rest e a.fits a.fatal short k t refl

-- The bytes of some responses.
abbrev pub wires : List McResponse → Bytes
wires [] = []
wires (res ∷ ress) = wire res ++ wires ress

-- A client with another connection.
abbrev pub facing : Client → Bytes → IoError → Writer → Client
facing c input e w = record c {
  conn = some (record { reader = record { input = input; ending = e }; writer = w });
}

-- getResponse alone.
pub get_response_answered :
    (c : Client) (res : McResponse) (rest : Bytes) (e : IoError) (w : Writer)
    → IsAnswer res
    → length c.hdr_buf ≤ hdr_len
    → c.conn
      ≡ some (record { reader = record { input = wire res ++ rest; ending = e }; writer = w })
    → get_response c
      ≡ some (record {
        res = some res;
        err = failure res;
        client = record c {
          conn = some (record { reader = record { input = rest; ending = e }; writer = w });
        };
      })
unfolding get_response_from response_error
get_response_answered c res rest e w a short k =
    let same : record res { fatal = false } ≡ res =
      ap (λ (b : Bool). let r : McResponse = record res { fatal = b } in r) (sym a.fatal) in
    rw (k, response_receive-wire res a.fits empty_response rest e c.hdr_buf short) (rw same refl)

-- A response that is a success is no error.
pub failure_success : (res : McResponse) → res.status ≡ Status.success → failure res ≡ none
failure_success res ok = rw ok refl
