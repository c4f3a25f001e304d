-- ===== src/Handle/Bookings.antt =====
-- How many handles have booked a loop.
use uvcc.Prelude.{
  ℕ, ◌+◌, ◌<◌, ◌≡◌, refl, List, [], ◌∷◌, Option, none, some, arith, ◌==◌, if◌then◌else◌,
}
use uvcc.Runtime.{Instance, HandleBody, Heap, put}
use uvcc.References.Places.{count}

abbrev pub loop_of : Option (Instance HandleBody) → ℕ
loop_of none = 0
loop_of (some i) = i.body.loop_instance_ptr

-- Among the handles of the list, those that have booked the loop `l`.
abbrev pub bookings : Heap HandleBody → List ℕ → ℕ → ℕ
bookings h [] l = 0
bookings h (p ∷ hs) l = (if loop_of (h p) == l then 1 else 0) + bookings h hs l

abbrev pub remove : ℕ → List ℕ → List ℕ
remove p [] = []
remove p (x ∷ xs) = if x == p then xs else x ∷ remove p xs

pub count-remove :
    (p q : ℕ) (xs : List ℕ)
    → 0 < count p xs
    → count q (remove p xs) + (if p == q then 1 else 0) ≡ count q xs
count-remove p q [] h = absurd (omega arith)
count-remove p q (x ∷ xs) h = ground (arith, count-remove p q xs)

pub bookings-put :
    (h : Heap HandleBody) (p : ℕ) (o : Option (Instance HandleBody)) (hs : List ℕ) (l : ℕ)
    → loop_of o ≡ loop_of (h p)
    → bookings (put h p o) hs l ≡ bookings h hs l
bookings-put h p o [] l e = refl
bookings-put h p o (x ∷ hs) l e = ground (arith, bookings-put h p o hs l e)

pub bookings-absent :
    (h : Heap HandleBody) (p : ℕ) (o : Option (Instance HandleBody)) (hs : List ℕ) (l : ℕ)
    → count p hs ≡ 0
    → bookings (put h p o) hs l ≡ bookings h hs l
bookings-absent h p o [] l e = refl
bookings-absent h p o (x ∷ hs) l e = ground (arith, bookings-absent h p o hs l)

pub bookings-remove :
    (h : Heap HandleBody) (p : ℕ) (o : Option (Instance HandleBody)) (hs : List ℕ) (l : ℕ)
    → count p hs ≡ 1
    → bookings (put h p o) (remove p hs) l + (if loop_of (h p) == l then 1 else 0) ≡ bookings h hs l
bookings-remove h p o [] l e = absurd (omega arith)
bookings-remove h p o (x ∷ hs) l e =
    ground (arith, bookings-absent h p o hs l, bookings-remove h p o hs l)

pub bookings-pos :
    (h : Heap HandleBody) (p : ℕ) (hs : List ℕ) → 0 < count p hs → 0 < bookings h hs (loop_of (h p))
bookings-pos h p [] e = absurd (omega arith)
bookings-pos h p (x ∷ hs) e = ground (arith, bookings-pos h p hs)
