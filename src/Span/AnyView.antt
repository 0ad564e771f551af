-- ===== src/Span/AnyView.antt =====
-- include/pposix/any_view.hpp: untyped views of objects, read as bytes.
use pposix.Base.{ℕ, ◌*◌, Bool, ◌==◌}
use pposix.Span.Bytes.{ByteCspan, byte_cspan_of, ByteSpan, byte_span_of}

pub record AnyCview : Type 0 where
  pub data_ : ℕ
  pub len_ : ℕ

-- `any_cview()`
unfoldable pub any_cview : AnyCview
any_cview = record { data_ = 0; len_ = 0 }

-- `any_cview(void const *data, std::size_t len)`
unfoldable pub any_cview_of : ℕ → ℕ → AnyCview
any_cview_of address len = record { data_ = address; len_ = len }

-- From an array of `count` elements of `size` bytes.
unfoldable pub any_cview_of_array : (size address count : ℕ) → AnyCview
any_cview_of_array size address count = record { data_ = address; len_ = size * count }

-- From a pointer to one object of `size` bytes.
unfoldable pub any_cview_of_object : (size address : ℕ) → AnyCview
any_cview_of_object size address = record { data_ = address; len_ = size }

-- `data()` and `length()`
abbrev pub any_cview_data : AnyCview → ℕ
any_cview_data v = v.data_

abbrev pub any_cview_length : AnyCview → ℕ
any_cview_length v = v.len_

unfoldable pub any_cview_empty : AnyCview → Bool
any_cview_empty v = any_cview_length v == 0

unfoldable pub any_cview_as_bytes : AnyCview → ByteCspan
any_cview_as_bytes v = byte_cspan_of v.data_ v.len_

pub record AnyView : Type 0 where
  pub data_ : ℕ
  pub len_ : ℕ

-- `any_view()`
unfoldable pub any_view : AnyView
any_view = record { data_ = 0; len_ = 0 }

-- `any_view(void *data, std::size_t len)`
unfoldable pub any_view_of : ℕ → ℕ → AnyView
any_view_of address len = record { data_ = address; len_ = len }

unfoldable pub any_view_of_array : (size address count : ℕ) → AnyView
any_view_of_array size address count = record { data_ = address; len_ = size * count }

unfoldable pub any_view_of_object : (size address : ℕ) → AnyView
any_view_of_object size address = record { data_ = address; len_ = size }

-- `data()` and `length()`
abbrev pub any_view_data : AnyView → ℕ
any_view_data v = v.data_

abbrev pub any_view_length : AnyView → ℕ
any_view_length v = v.len_

unfoldable pub any_view_empty : AnyView → Bool
any_view_empty v = any_view_length v == 0

-- `operator any_cview()`
unfoldable pub to_any_cview : AnyView → AnyCview
unfolding any_cview_of
to_any_cview v = any_cview_of (any_view_data v) (any_view_length v)

unfoldable pub as_bytes : AnyView → ByteCspan
as_bytes v = byte_cspan_of v.data_ v.len_

unfoldable pub as_writeable_bytes : AnyView → ByteSpan
as_writeable_bytes v = byte_span_of v.data_ v.len_
