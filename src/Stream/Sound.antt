-- ===== src/Stream/Sound.antt =====
-- What holds of a stream between two calls, kept by what src/stream.c sends.
pub mod Sasl
pub mod Hooks
pub mod Connect
pub mod Calls
use iksemel.Base.{
  ℕ, zero, suc, Bool, true, false, if◌then◌else◌, Option, none, some, List, Bytes, ◌≡◌, ◌≢◌, refl,
  arith,
}
use iksemel.Stream.Types.{
  Transport, StreamData, Conn, Act, return, broken_off, ◌>>=◌, ◌>>◌, on_heap, ask, put, outside,
  nothing, if_ok, Outside,
}
use iksemel.Sax.Types.{iks_ok}
use iksemel.Iks.Heap.{Ptr}
use iksemel.Stream.Leads.{Leads}
use iksemel.Stream.Send.{
  log, send_over, rwerr, iks_send_raw, print_into, iks_send_header, iks_send, iks_start_tls,
  iks_has_tls,
}

-- A stream with a transport has a buffer, and TLS is used over a transport only.
pub record Sound {W : Type 0} (d : StreamData W) : Type 0 where
  pub buffered : d.buf ≡ none → d.trans ≡ none
  pub over : d.trans ≡ none → d.secure ≡ false

module _ {W : Type 0} (o : Outside W) (P : StreamData W → Type 0) where
  log-Leads : (bytes : Bytes) (incoming : Bool) → Leads P P (log bytes incoming)
  unfolding log
  log-Leads bytes incoming = λ c h p. ground arith

  -- `iks_send_raw` changes nothing of the stream.
  pub iks_send_raw-Leads : (text : Option Bytes) → Leads P P (iks_send_raw o text)
  unfolding iks_send_raw log
  iks_send_raw-Leads none = λ c h p. tt
  iks_send_raw-Leads (some bytes) = λ c h p. ground arith

module _ {W : Type 0} (o : Outside W) where
  abbrev pub Keeps : {A : Type 0} → Act W A → Type 0
  Keeps act = Leads Sound Sound act

  pub iks_send_header-Sound : (to : Bytes) → Keeps (iks_send_header o to)
  unfolding iks_send_header
  iks_send_header-Sound to = λ c h s. ground (arith, iks_send_raw-Leads o Sound)

  pub iks_send-Sound : (fuel : ℕ) (x : Ptr) → Keeps (iks_send o fuel x)
  unfolding iks_send
  iks_send-Sound fuel x = λ c h s. ground (arith, iks_send_raw-Leads o Sound)

  pub iks_start_tls-Sound : Keeps (iks_start_tls o)
  unfolding iks_start_tls
  iks_start_tls-Sound = λ c h s. ground (arith, iks_send_raw-Leads o Sound)
