-- ===== src/Stream/Sound/Hooks.antt =====
-- The hooks of src/stream.c keep a stream sound, if the client's hook does.
use iksemel.Base.{ℕ, Bool, true, false, Option, none, some, List, Bytes, arith}
use iksemel.Sax.Types.{TagType, iks_open, iks_close, iks_single}
use iksemel.Iks.Heap.{Ptr}
use iksemel.Stream.Types.{Event, StreamData, Outside}
use iksemel.Stream.Leads.{Leads}
use iksemel.Stream.Hooks.{
  put_attribs, shake_hands, proceed, deliver, leave, close_tag, enter, open_node, open_tag,
  stream_tag, stream_cdata, stream_delete,
}
use iksemel.Stream.Sound.{Sound, iks_send_header-Sound}
use iksemel.Stream.Sound.Sasl.{iks_sasl_challenge-Sound}

module _ {W : Type 0} (o : Outside W) (fuel : ℕ) where
  proceed-Sound : Leads Sound Sound (proceed o)
  unfolding proceed shake_hands
  proceed-Sound = λ c h s. grind (arith, iks_send_header-Sound o)

  put_attribs-Leads :
      (P : StreamData W → Type 0) (x : Ptr) (atts : Option (List Bytes))
      → Leads P P (put_attribs fuel x atts)
  unfolding put_attribs
  put_attribs-Leads P x none = λ c h s. s
  put_attribs-Leads P x (some atts) = λ c h s. ground arith

  -- The hook for text keeps a stream sound.
  pub stream_cdata-Sound : (text : Bytes) → Leads (Sound {W = W}) Sound (stream_cdata text)
  unfolding stream_cdata
  stream_cdata-Sound text = λ c h s. ground arith

  pub stream_delete-Sound : Leads Sound Sound (stream_delete o)
  unfolding stream_delete
  stream_delete-Sound = λ c h s. ground arith

  module _
      (hook : (user : Ptr) (e : Event) (x : Ptr) → Leads Sound Sound (o.stream_hook user e x)) where
    deliver-Sound : (name : Bytes) (x : Ptr) → Leads Sound Sound (deliver o fuel name x)
    unfolding deliver
    deliver-Sound name x = λ c h s. grind (arith, hook, iks_sasl_challenge-Sound o fuel)

    leave-Sound :
        (name : Bytes) (x : ℕ) (parent : Ptr) → Leads Sound Sound (leave o fuel name x parent)
    unfolding leave
    leave-Sound name x none = λ c h s.
        deliver-Sound name (some x) (record c { stream = record c.stream { current = none } }) h
          (record { buffered = s.buffered; over = s.over })
    leave-Sound name x (some y) = λ c h s. ground arith

    close_tag-Sound : (name : Bytes) → Leads Sound Sound (close_tag o fuel name)
    unfolding close_tag
    close_tag-Sound name = λ c h s. grind (arith, hook, leave-Sound)

    enter-Sound :
        (name : Bytes) (is_start : Bool) (x : Ptr)
        → Leads Sound Sound (enter o fuel name is_start x)
    unfolding enter
    enter-Sound name is_start x = λ c h s. grind (arith, close_tag-Sound)

    open_node-Sound :
        (name : Bytes) (atts : Option (List Bytes)) (is_start : Bool)
        → Leads Sound Sound (open_node o fuel name atts is_start)
    unfolding open_node
    open_node-Sound name atts is_start =
        λ c h s. grind (arith, hook, enter-Sound, put_attribs-Leads Sound)

    open_tag-Sound :
        (name : Bytes) (atts : Option (List Bytes)) (is_start : Bool)
        → Leads Sound Sound (open_tag o fuel name atts is_start)
    unfolding open_tag
    open_tag-Sound name atts is_start = λ c h s. grind (arith, open_node-Sound, proceed-Sound)

    -- The hook for tags keeps a stream sound, if the client's hook does.
    pub stream_tag-Sound :
        (name : Bytes) (atts : Option (List Bytes)) (type : TagType)
        → Leads Sound Sound (stream_tag o fuel name atts type)
    unfolding stream_tag
    stream_tag-Sound name atts iks_open = open_tag-Sound name atts true
    stream_tag-Sound name atts iks_close = close_tag-Sound name
    stream_tag-Sound name atts iks_single = open_tag-Sound name atts false
