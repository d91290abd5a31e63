-- ===== src/Api/Capture/Rendering.antt =====
-- What `create_capture` of src/api/capture.rs renders.
use personal_knowledge_os.Prelude.{
  ◌≤◌, ◌≡◌, ◌∙◌, inl, inr, true, ◌||◌, List, [], ◌∷◌, ◌++◌, append_assoc, append-nil, leb, is_empty,
  if◌then◌else◌, All, Bool-cases, leb→le, arith,
}
use personal_knowledge_os.Text.{Text, byte_len}
use personal_knowledge_os.AppError.{ok}
use personal_knowledge_os.Models.{CaptureMessage}
use personal_knowledge_os.Api.Sources.{at_most}
use personal_knowledge_os.Api.Capture.{
  is_role, role_of, body_of, section_of, render, max_capture_bytes,
}

-- the document: a section for each message that is not blank
unfoldable pub document : List CaptureMessage → Text
document [] = []
document (message ∷ messages) =
    let rest = document messages in
    if is_empty (body_of message) then rest else section_of message ++ rest

-- a role of the list, and no name of more than 128 bytes in front of a body
unfoldable pub IsRenderable : CaptureMessage → Type 0
IsRenderable message =
    (is_role (role_of message) ≡ true)
    × ((is_empty (body_of message) || at_most 128 message.name) ≡ true)

-- What is rendered is the content so far and then the document of the messages, every one of which is
-- renderable; it is within the limit if the content so far was.
pub render_sound :
    (content : Text) (messages : List CaptureMessage) {result : Text}
    → render content messages ≡ ok result
    → byte_len content ≤ max_capture_bytes
    → (result ≡ content ++ document messages)
      × All IsRenderable messages
      × (byte_len result ≤ max_capture_bytes)
unfolding render document IsRenderable
render_sound content [] h small = (ground (arith, append-nil content), tt, ground arith)
render_sound content (message ∷ messages) h small = elim (Bool-cases (is_role (role_of message))) [
  | inl role ↦ elim (Bool-cases (is_empty (body_of message))) [
    | inl blank ↦
        let (same, good, within) = render_sound content messages (rw (role, blank) at h) small in
        (rw blank same, ((role, rw blank), good), within)
    | inr full ↦ elim (Bool-cases (at_most 128 message.name)) [
      | inl named ↦ elim (Bool-cases (leb (byte_len next) max_capture_bytes)) [
        | inl fits ↦
            let (same, good, within) =
              render_sound next messages (rw (role, full, named, fits) at h) (leb→le _ _ fits) in
            (
              rw full (same ∙ append_assoc content (section_of message) (document messages)),
              ((role, rw (full, named)), good),
              within,
            )
        | inr long ↦ (let bad = rw (role, full, named, long) at h in cc)
      ]
      | inr long ↦ (let bad = rw (role, full, long) at h in cc)
    ]
  ]
  | inr other ↦ (let bad = rw other at h in cc)
]
  where
    next : Text
    next = content ++ section_of message
