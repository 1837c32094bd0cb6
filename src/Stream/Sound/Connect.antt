-- ===== src/Stream/Sound/Connect.antt =====
-- The functions of src/stream.c that connect keep a stream sound, and a new one is.
use iksemel.Base.{ℕ, Bytes, refl, arith}
use iksemel.Iks.Heap.{Ptr, request}
use iksemel.Stream.Types.{Transport, Outside}
use iksemel.Stream.Leads.{Leads}
use iksemel.Stream.Connect.{
  new_stream, with_buffer, connected, iks_connect_with, iks_connect_async_with, iks_connect_fd,
}
use iksemel.Stream.Sound.{Sound, iks_send_header-Sound}

pub new_stream-Sound :
    {W : Type 0} (s : ℕ) (name_space : Bytes) (user : Ptr)
    → Sound (new_stream {W = W} s name_space user)
new_stream-Sound s name_space user = record { buffered = λ e. refl; over = λ e. refl }

module _ {W : Type 0} (o : Outside W) where
  pub iks_connect_with-Sound :
      (server : Bytes) (port : ℕ) (name : Bytes) (t : Transport W)
      → Leads Sound Sound (iks_connect_with o server port name t)
  unfolding iks_connect_with connected with_buffer request
  iks_connect_with-Sound server port name t = λ c h s. grind (arith, iks_send_header-Sound o)

  pub iks_connect_async_with-Sound :
      (server : Bytes) (port : ℕ) (name : Bytes) (t : Transport W)
      → Leads Sound Sound (iks_connect_async_with server port name t)
  unfolding iks_connect_async_with connected with_buffer request
  iks_connect_async_with-Sound server port name t = λ c h s. ground arith

  pub iks_connect_fd-Sound : (fd : ℕ) → Leads Sound Sound (iks_connect_fd o fd)
  unfolding iks_connect_fd with_buffer request
  iks_connect_fd-Sound fd = λ c h s. ground arith
