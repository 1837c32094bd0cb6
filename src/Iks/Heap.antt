-- ===== src/Iks/Heap.antt =====
-- The nodes of src/iks.c at addresses, and commands that read and write them.
use iksemel.Base.{ℕ, suc, Bool, ◌==◌, if◌then◌else◌, Option, none, some, ◌++◌, Bytes, take, strlen}

-- NULL is `none`.
abbrev pub Ptr : Type 0
Ptr = Option ℕ

-- `enum ikstype`
pub data NodeType : Type 0 where
  iks_none iks_tag iks_attribute iks_cdata : NodeType

-- the fields of `struct iks_tag` behind IKS_COMMON
pub record TagBody : Type 0 where
  pub children : Ptr
  pub last_child : Ptr
  pub attribs : Ptr
  pub last_attrib : Ptr
  pub name : Option Bytes

-- The struct that a node was allocated as: a field of another struct is not read, but for `iks_name`
-- of a text. A string is its bytes in front of the NUL.
pub data Body : Type 0 where
  tag : TagBody → Body
  cdata : Option Bytes → ℕ → Body
  attrib : Option Bytes → Option Bytes → Body

-- IKS_COMMON and the rest; a stack is a number.
pub record Node : Type 0 where
  pub next : Ptr
  pub prev : Ptr
  pub parent : Ptr
  pub type : NodeType
  pub s : ℕ
  pub body : Body

-- `fresh` counts the requests for memory: it is the address of the next one, and `grants` says
-- whether that is met.
pub record Heap : Type 0 where
  pub fresh : ℕ
  pub grants : ℕ → Bool
  pub node : ℕ → Option Node

-- How a command ends: a fault is a read through NULL, of freed memory or of another struct.
pub data Run (A : Type 0) : Type 0 where
  fault out_of_fuel : Run A
  ok : A → Heap → Run A

abbrev pub Cmd : Type 0 → Type 0
Cmd A = Heap → Run A

-- `return`, a crash, and a loop whose fuel is used up
abbrev pub pure : {A : Type 0} → A → Cmd A
pure a h = ok a h

abbrev pub crash : {A : Type 0} → Cmd A
crash h = fault

abbrev pub starve : {A : Type 0} → Cmd A
starve h = out_of_fuel

-- what follows a run, if it ended well
abbrev pub and_then : {A B : Type 0} → Run A → (A → Cmd B) → Run B
and_then fault next = fault
and_then out_of_fuel next = out_of_fuel
and_then (ok value after) next = next value after

infixl 5 ◌>>=◌
abbrev pub ◌>>=◌ : {A B : Type 0} → Cmd A → (A → Cmd B) → Cmd B
first >>= next = λ h. and_then (first h) next

infixl 5 ◌>>◌
abbrev pub ◌>>◌ : {A B : Type 0} → Cmd A → Cmd B → Cmd B
first >> second = first >>= λ _. second

-- `if (!a) return …;`
abbrev pub if_null : {A B : Type 0} → Option A → Cmd B → (A → Cmd B) → Cmd B
if_null none stop k = stop
if_null (some a) stop k = k a

-- a read through a pointer that may be NULL
abbrev pub non_null : {A : Type 0} → Option A → Cmd A
non_null none = crash
non_null (some a) = pure a

abbrev pub skip : Cmd (Unit {0})
skip = pure tt

unfoldable pub write : (ℕ → Option Node) → ℕ → Node → ℕ → Option Node
write f a n b = if b == a then some n else f b

-- `*p`
unfoldable pub load : Ptr → Cmd Node
load none h = fault
load (some a) h = elim (h.node a) [ none ↦ fault | some n ↦ ok n h ]

unfoldable pub put_node : ℕ → Node → Cmd (Unit {0})
put_node a n h = ok tt (record h { node = write h.node a n })

-- an assignment to fields of `*p`
unfoldable pub modify : Ptr → (Node → Node) → Cmd (Unit {0})
unfolding load put_node
modify none f = crash
modify (some a) f = do n ← load (some a); put_node a (f n)

abbrev pub set_next : Ptr → Ptr → Cmd (Unit {0})
set_next p q = modify p λ n. record n { next = q }

abbrev pub set_prev : Ptr → Ptr → Cmd (Unit {0})
set_prev p q = modify p λ n. record n { prev = q }

abbrev pub set_parent : Ptr → Ptr → Cmd (Unit {0})
set_parent p q = modify p λ n. record n { parent = q }

abbrev pub set_body : Ptr → Body → Cmd (Unit {0})
set_body p b = modify p λ n. record n { body = b }

-- IKS_TAG_NAME and the like: the fields of `struct iks_tag`
abbrev pub as_tag : Body → Cmd TagBody
as_tag (tag t) = pure t
as_tag _ = crash

unfoldable pub load_tag : Ptr → Cmd TagBody
unfolding load
load_tag p = do n ← load p; as_tag n.body

unfoldable pub set_tag : Ptr → (TagBody → TagBody) → Cmd (Unit {0})
unfolding load_tag modify
set_tag p f = do t ← load_tag p; set_body p (tag (f t))

-- IKS_CDATA_CDATA and IKS_CDATA_LEN
abbrev pub as_cdata : Body → Cmd (Option Bytes × ℕ)
as_cdata (cdata c len) = pure (c, len)
as_cdata _ = crash

-- IKS_ATTRIB_NAME and IKS_ATTRIB_VALUE
abbrev pub as_attrib : Body → Cmd (Option Bytes × Option Bytes)
as_attrib (attrib name value) = pure (name, value)
as_attrib _ = crash

unfoldable pub load_attrib : Ptr → Cmd (Option Bytes × Option Bytes)
unfolding load
load_attrib p = do n ← load p; as_attrib n.body

-- a request to the stack: the address, if it is met
unfoldable pub request : Cmd (Option ℕ)
request h = ok (if h.grants h.fresh then some h.fresh else none) (record h { fresh = suc h.fresh })

-- What `iks_stack_strdup` copies, where a length of 0 stands for the whole string.
abbrev pub dup : Bytes → ℕ → Bytes
dup src len = take (if len == 0 then strlen src else len) src

-- `iks_stack_strdup`
unfoldable pub new_string : Bytes → ℕ → Cmd (Option Bytes)
unfolding request
new_string src len = do r ← request; if_null r (pure none) λ _. pure (some (dup src len))

-- `iks_stack_strcat`, where a NULL is appended to as an empty string
unfoldable pub joined_string : Option Bytes → ℕ → Bytes → ℕ → Cmd (Option Bytes)
unfolding new_string request
joined_string none old_len src src_len = new_string src src_len
joined_string (some old) old_len src src_len = do
  r ← request
  if_null r (pure none) λ _. pure (some (dup old old_len ++ dup src src_len))
