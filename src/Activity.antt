-- ===== src/Activity.antt =====
-- The ActivityStreams values that the program reads and writes, as far as it looks into them: the
-- types of the vocabulary library that internal/activitypub and internal/domain use. An absent
-- property is none; an item is a link or an embedded object.
use estrys.Common.{String, ℕ, Bool, Option, List}
use estrys.Outcome.{Result}
use estrys.Models.{Url}

pub data Item : Type 0 where
  iri : Url → Item
  -- an embedded object, with the name of its type
  embedded : String → Item

-- `ActivityStreamsActorProperty`, and the object property of a Follow
abbrev pub Property : Type 0
Property = List Item

pub record Follow : Type 0 where
  pub actor : Option Property
  pub object : Option Property

pub data UndoItem : Type 0 where
  follow_item : Follow → UndoItem
  -- any other item, with the name of its type if it has one
  other_item : Option String → UndoItem

pub record Undo : Type 0 where
  pub actor : Option Property
  pub object : Option (List UndoItem)

-- What a property serializes to: one text, or a list or a map.
pub data Serialized : Type 0 where
  text : String → Serialized
  structure : Serialized

-- `ActivityStreamsAccept` and `ActivityStreamsReject`, as the program fills them
pub record Answer : Type 0 where
  pub id : Url
  pub actor : Url
  pub object : List Follow

-- `ActivityStreamsDocument`; an attachment whose URL was not read has none.
pub record Attachment : Type 0 where
  pub media_type : String
  pub url : Option Url

-- `ActivityStreamsNote`
pub record Note : Type 0 where
  pub id : Url
  pub attributed_to : Url
  pub cc : Url
  pub to : Option Url
  pub content : String
  pub published : ℕ
  pub sensitive : Bool
  pub attachments : List Attachment

-- `ActivityStreamsCreate`
pub record Create : Type 0 where
  pub id : Url
  pub actor : Url
  pub cc : Url
  pub to : Option Url
  pub published : ℕ
  pub object : Note

-- An activity that is sent
pub data Message : Type 0 where
  accept reject : Answer → Message
  create : Create → Message

-- `ActivityStreamsOrderedCollection`
pub record Collection : Type 0 where
  pub id : Url
  pub total_items : ℕ

-- `ActivityStreamsService`, the actor that a user is shown as, with its key and its icon
pub record Service : Type 0 where
  pub id : Url
  pub inbox : Url
  pub outbox : Url
  pub followers : Url
  pub following : Url
  pub preferred_username : String
  pub name : String
  pub summary : String
  pub published : ℕ
  pub key_id : Url
  pub key_owner : Url
  pub key_pem : String
  pub icon : Url
  pub discoverable : Bool

-- A document that a page shows
pub data Document : Type 0 where
  collection : Collection → Document
  service : Service → Document

-- An activity that is answered; any other than a follow has the name of its type.
pub data Activity : Type 0 where
  follow_activity : Follow → Activity
  other_activity : String → Activity

-- The functions of the vocabulary library
pub record VocabLibrary : Type 0 where
  pub serialize_property : Property → Result Serialized
  pub serialize_follow : Follow → Result String
  -- `streams.Serialize` and the JSON encoder for an activity that is sent
  pub serialize_message : Message → Result String
  pub encode_message : String → Result String
