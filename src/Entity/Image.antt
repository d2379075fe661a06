-- ===== src/Entity/Image.antt =====
-- An image: c_src/lib/wm_image.cpp and its header.
use swm_core.Prelude.{ℕ, List, [], ◌≡◌, Bytes}
use swm_core.Ei.{Ei}
use swm_core.Decode.{Read, done, to_atom, to_str, to_uint64}
use swm_core.Decode.Vectors.{entity, field, to_entities, to_strs}
use swm_core.Decode.Terms.{
  IsEntity, IsTuple, entity-IsEntity, IsListOf, to_entities-IsListOf, IsAtom, IsText, IsTexts,
  IsUnsigned, to_atom-IsAtom, to_str-IsText, to_strs-IsTexts, to_uint64-IsUnsigned,
}

record Image : Type 0 where
  name : Bytes
  id : Bytes
  tags : List Bytes
  size : ℕ
  kind : Bytes
  status : Bytes
  remote_id : Bytes
  created : Bytes
  updated : Bytes
  comment : Bytes
  revision : ℕ

module _ (E : Ei) (b : E.Buf) where
  -- The members in the order of the tuple.
  unfoldable fields : ℕ → Image → Read Image
  fields i o =
      field E b (to_str E b i o.name) (λ x. record o { name = x })
        (λ i o.
          field E b (to_str E b i o.id) (λ x. record o { id = x })
            (λ i o.
              field E b (to_strs E b i o.tags) (λ x. record o { tags = x })
                (λ i o.
                  field E b (to_uint64 E b i o.size) (λ x. record o { size = x })
                    (λ i o.
                      field E b (to_atom E b i o.kind) (λ x. record o { kind = x })
                        (λ i o.
                          field E b (to_str E b i o.status) (λ x. record o { status = x })
                            (λ i o.
                              field E b (to_str E b i o.remote_id) (λ x. record o { remote_id = x })
                                (λ i o.
                                  field E b (to_str E b i o.created) (λ x. record o { created = x })
                                    (λ i o.
                                      field E b (to_str E b i o.updated)
                                        (λ x. record o { updated = x })
                                        (λ i o.
                                          field E b (to_str E b i o.comment)
                                            (λ x. record o { comment = x })
                                            (λ i o.
                                              field E b (to_uint64 E b i o.revision)
                                                (λ x. record o { revision = x }) done))))))))))

  -- The constructor. The numbers have no initial values: they are those of `junk`.
  unfoldable image : Image → ℕ → ℕ × Image
  unfolding fields entity
  image junk = entity E b fields (record junk {
    name = [];
    id = [];
    tags = [];
    kind = [];
    status = [];
    remote_id = [];
    created = [];
    updated = [];
    comment = [];
  })

  unfoldable to_image : Image → ℕ → Read Image
  unfolding image
  to_image junk i = let (j, o) = image junk i in done j o

  to_images : Image → ℕ → List Image → Read (List Image)
  unfolding image to_entities
  to_images junk = to_entities E b (image junk)

  -- An image record from `i` to `j`.
  data IsImage (o : Image) (i j : ℕ) : Type 0 where
    image_tuple :
        (k k1 k2 k3 k4 k5 k6 k7 k8 k9 k10 : ℕ)
        → IsEntity E b i k
        → IsText E b o.name k k1
        → IsText E b o.id k1 k2
        → IsTexts E b o.tags k2 k3
        → IsUnsigned E b o.size k3 k4
        → IsAtom E b o.kind k4 k5
        → IsText E b o.status k5 k6
        → IsText E b o.remote_id k6 k7
        → IsText E b o.created k7 k8
        → IsText E b o.updated k8 k9
        → IsText E b o.comment k9 k10
        → IsUnsigned E b o.revision k10 j
        → IsImage o i j

  image-IsImage : (junk o : Image) (i j : ℕ) → IsImage o i j → image junk i ≡ (j, o)
  unfolding image fields
  image-IsImage junk o i j
        (image_tuple k k1 k2 k3 k4 k5 k6 k7 k8 k9 k10 t h1 h2 h3 h4 h5 h6 h7 h8 h9 h10 h11) =
      entity-IsEntity E b fields
        (record junk {
          name = [];
          id = [];
          tags = [];
          kind = [];
          status = [];
          remote_id = [];
          created = [];
          updated = [];
          comment = [];
        })
        o i j k t
        (rw (
          to_str-IsText E b o.name k k1 h1,
          to_str-IsText E b o.id k1 k2 h2,
          to_strs-IsTexts E b o.tags k2 k3 h3,
          to_uint64-IsUnsigned E b o.size junk.size k3 k4 h4,
          to_atom-IsAtom E b o.kind [] k4 k5 h5,
          to_str-IsText E b o.status k5 k6 h6,
          to_str-IsText E b o.remote_id k6 k7 h7,
          to_str-IsText E b o.created k7 k8 h8,
          to_str-IsText E b o.updated k8 k9 h9,
          to_str-IsText E b o.comment k9 k10 h10,
          to_uint64-IsUnsigned E b o.revision junk.revision k10 j h11,
        ))

  IsTuple-IsImage : (o : Image) (i j : ℕ) → IsImage o i j → IsTuple E b i
  IsTuple-IsImage o i j (image_tuple k k1 k2 k3 k4 k5 k6 k7 k8 k9 k10 t _ _ _ _ _ _ _ _ _ _ _) = t.0

  -- A list of image records is read into an empty vector in order, each with its 11 members, and
  -- the index is left behind the list.
  to_images-IsListOf :
      (junk : Image) (os : List Image) (i j : ℕ)
      → IsListOf E b IsImage os i j
      → to_images junk i [] ≡ done j os
  unfolding to_images
  to_images-IsListOf junk =
      to_entities-IsListOf E b IsImage (image junk) (image-IsImage junk) IsTuple-IsImage
