-- ===== src/XexImage/Backed.antt =====
-- The bytes of a section that the image's buffer holds.
use wosrecomp.Base.{ℕ, ◌+◌, ◌≤◌, ◌<◌, ◌≡◌, some, arith}
use wosrecomp.XexImage.{XexSection, XexImage, backed_from, backed_size}

pub backed_from-inside :
    (im : XexImage) (size p i : ℕ)
    → i < backed_from im size p
    → (im.buffer ≤ p) × (p + i < im.buffer + im.size) × (i < size)
unfolding backed_from
backed_from-inside im size p i h = ground arith

pub backed_size-some :
    (im : XexImage) (s : XexSection) (p : ℕ)
    → s.source ≡ some p
    → backed_size im s ≡ backed_from im s.size p
unfolding backed_size
backed_size-some im s p e = ground arith

pub backed_size-le : (im : XexImage) (s : XexSection) → backed_size im s ≤ s.size
unfolding backed_size backed_from
backed_size-le im s = ground arith
