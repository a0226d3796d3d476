-- ===== src/Examples/Rr.antt =====
-- cpp/examples/rr.cpp: a requester and a replier. `pack` and `unpack` and the text of a `double` are
-- parameters, and so is the arithmetic of `double`.
pub mod Answers
use text.Mathlib.Text.{◌==◌ as str_eq}
use marko.Base.{ℕ, zero, suc, String, ◌<>◌, List, [], ◌∷◌, Option, none, some, if◌then◌else◌, St}
use marko.Base.Int.{ℤ, pos}
use marko.Base.Decimal.{to_decimal, int_to_decimal}
use marko.System.{Message, InetAddr, System}
use marko.Socket.{newline, close}
use marko.Datagram.Udp.{socket_udp}
use marko.Examples.Structs.{Codec, Doubles}
use marko.Info.Host.{get_host_ip}
use marko.RequestReply.{Outcome, returned, bad_function_call, Request, new_request, request}
use marko.RequestReply.Threads.{rep_thread}

abbrev pub port : ℕ
port = 9999

abbrev pub loop : ℕ
loop = 5

pub record RequestT (Double : Type 0) : Type 0 where
  pub a : Double
  pub b : ℤ

pub record ResponseT : Type 0 where
  pub a : ℤ

-- `1.2345*double(i)`
abbrev pub scaled : (F : Doubles) → ℤ → F.Double
scaled F i = F.times (F.decimal 12345 4) (F.of_int i)

module _ (S : System) (F : Doubles) (asks : Codec (RequestT F.Double))
    (answers : Codec ResponseT) where
  open S use {World}

  -- The body of the loop of `request`, before and after the call.
  abbrev pub question : ℕ → Message
  question i = asks.pack (record { a = scaled F (pos i); b = pos i })

  abbrev pub show_answer : Message → World → World
  show_answer rp w = S.print ("resp: " <> (int_to_decimal (answers.unpack rp).a <> newline)) w

  -- The rounds that are left, and `i`.
  unfoldable pub request_loop : Request → InetAddr → ℕ → ℕ → World → World
  unfolding request
  request_loop r addr zero i w = w
  request_loop r addr (suc rounds) i w =
      let (rp, w') = request (socket_udp S) r (question i) addr w in
      request_loop r addr rounds (suc i) (show_answer rp w')

  -- `request`, with the text in the global `HOST`.
  unfoldable pub run_request : String → World → World
  unfolding new_request request_loop close
  run_request host w =
      let addr = S.inet_sockaddr ("udp://" <> (host <> (":" <> to_decimal port))) in
      let w1 = S.print ("Request connecting to: " <> (S.to_string addr <> newline)) w in
      let (r, w2) = new_request (socket_udp S) answers.size w1 in
      (close S r.socket (request_loop r addr loop 0 w2)).1

  unfoldable pub cb : Message → St World Message
  cb m w =
      let s = asks.unpack m in
      let line =
        "cb: " <> (F.text s.a <> (" " <> (int_to_decimal s.b <> (" " <> to_decimal asks.size)))) in
      (answers.pack (record { a = s.b }), S.print (line <> newline) w)

  -- `reply`
  unfoldable pub run_reply : World → Outcome Unit × World
  unfolding rep_thread cb
  run_reply w =
      rep_thread S (socket_udp S) asks.size (S.inet_sockaddr ("udp://*:" <> to_decimal port)) cb
        loop w

  abbrev pub usage : String
  usage = "Usage: ./rr reply|request" <> newline

  -- The program, of which `HOST` is set first. The exit status; `none` where an exception ends it.
  unfoldable pub main : List String → World → Option ℕ × World
  unfolding get_host_ip run_request run_reply
  main args w =
      let (host, w1) = get_host_ip S w in
      elim args [
        | name ∷ arg ∷ [] ↦
            if str_eq arg "reply"
            then (let (outcome, w2) = run_reply w1 in
                (elim outcome [ returned u ↦ some 0 | bad_function_call ↦ none ], w2))
            else if str_eq arg "request"
            then (some 0, run_request host w1)
            else (some 0, S.print usage w1)
        | _ ↦ (some 1, S.print usage w1)
      ]
