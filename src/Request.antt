-- ===== src/Request.antt =====
-- src/include/uvcc/request-base.hpp: the counted instances of requests.
pub mod Lifetime
use uvcc.Prelude.{ℕ, List, Option, none, some, ◌∷◌, ◌==◌, if◌then◌else◌}
use uvcc.Prelude.Int.{ℤ}
use uvcc.Runtime.{
  Instance, RequestBody, World, Run, ok, M, pure, ◌>>=◌, ◌>>◌, when, emit, put, inc_ref, dec_ref,
  lift, found, on_request_destroy, deleted_request,
}

-- `instance< _Request_ >::from(p)`.
abbrev pub load : ℕ → M (Instance RequestBody)
load p w = found (w.requests p) λ i. ok i w

abbrev pub store : ℕ → Instance RequestBody → M (Unit {0})
store p i w = ok tt (record w { requests = put w.requests p (some i) })

pub ref : ℕ → M (Unit {0})
ref p w = lift (inc_ref w.requests p) λ h. ok tt (record w { requests = h })

-- `delete this`.
abbrev delete : ℕ → M (Unit {0})
delete p w =
    ok tt (record w { requests = put w.requests p none; trace = deleted_request p ∷ w.trace })

destroy_instance : ℕ → M (Unit {0})
destroy_instance p = do i ← load p; when i.has_destroy_cb (emit (on_request_destroy p)); delete p

dec : ℕ → M ℕ
dec p w = lift (dec_ref w.requests p) λ (n, h). ok n (record w { requests = h })

pub unref : ℕ → M (Unit {0})
unfolding destroy_instance dec
unref p = do n ← dec p; when (n == 0) (destroy_instance p)

-- `uv_status(_value)`.
unfoldable pub set_status : ℕ → ℤ → M (Unit {0})
set_status p r = do i ← load p; store p (record i { uv_error = r })
