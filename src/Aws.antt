-- ===== src/Aws.antt =====
-- controlpanel/api/aws.py: ARNs, and the IAM policies that give access to S3 buckets and folders.
pub mod Arn
pub mod Statement
pub mod Document
pub mod S3AccessPolicy
pub mod Role
pub mod Attachments
pub mod InlinePolicies
pub mod ManagedPolicy
pub mod Bucket
pub mod Secrets
pub mod LakeFormation
pub mod IdentityStore
pub mod Samples
mod ServiceTests
mod Tests
